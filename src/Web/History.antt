-- ===== src/Web/History.antt =====
-- apps/web/lib/use-settlement-history.ts: the state of the history, what each promise does to it, and
-- the calls. `get` is getSettlements at the hook's SLA and page size, with its `before`.
pub mod Complete
pub mod Overtaking
use slasettle_hub.Prelude.{
  ℕ, zero, suc, String, List, [], ◌++◌, Bool, true, false, ◌||◌, Option, none, some, ◌==◌,
  if◌then◌else◌,
}
use slasettle_hub.Web.Reads.{ReadError, Read, thrown, got, describe_read_error}
use slasettle_hub.Web.Client.Requests.{PagedResult}

abbrev pub page_size : ℕ
page_size = 20

pub record State (T : Type 0) : Type 0 where
  pub settlements : List T
  pub next_cursor : Option String
  pub loading : Bool
  pub loading_more : Bool
  pub error : Option String

-- `!nextCursor || loadingMore` returns
unfoldable pub askable : Bool → Option String → Option String
askable loading_more none = none
askable loading_more (some cursor) = if cursor == "" || loading_more then none else some cursor

module _ {T : Type 0} where
  -- useState
  unfoldable pub initial : State T
  initial = record {
    settlements = [];
    next_cursor = none;
    loading = true;
    loading_more = false;
    error = none;
  }

  unfoldable pub load_started : State T → State T
  load_started s = record s { loading = true; error = none }

  unfoldable pub page_state : List T → Option String → State T
  page_state settlements next_cursor = record {
    settlements = settlements;
    next_cursor = next_cursor;
    loading = false;
    loading_more = false;
    error = none;
  }

  -- The effect's promise, where the effect was not cancelled before it is settled.
  unfoldable pub load_settled : Bool → Read (PagedResult T) → State T → State T
  unfolding page_state describe_read_error
  load_settled true answer s = s
  load_settled false (got page) s = page_state page.items page.next_cursor
  load_settled false (thrown e) s = record (page_state [] none) {
    error = some (describe_read_error e);
  }

  -- reload
  unfoldable pub reload_settled : Read (PagedResult T) → State T → State T
  unfolding page_state describe_read_error
  reload_settled (got page) s = page_state page.items page.next_cursor
  reload_settled (thrown e) s = record s { error = some (describe_read_error e) }

  -- The cursor that loadMore asks with, none if it returns at once.
  unfoldable pub more_cursor : State T → Option String
  unfolding askable
  more_cursor s = askable s.loading_more s.next_cursor

  unfoldable pub more_started : State T → State T
  more_started s = record s { loading_more = true }

  unfoldable pub more_settled : Read (PagedResult T) → State T → State T
  unfolding page_state describe_read_error
  more_settled (got page) s = page_state (s.settlements ++ page.items) page.next_cursor
  more_settled (thrown e) s = record s {
    loading_more = false;
    error = some (describe_read_error e);
  }

  module _ (get : Option String → Read (PagedResult T)) where
    -- The first page, and loadMore, each settled before anything else happens.
    unfoldable pub first_load : State T
    unfolding load_settled load_started initial
    first_load = load_settled false (get none) (load_started initial)

    unfoldable pub more_at : Option String → State T → State T
    unfolding more_started more_settled
    more_at none s = s
    more_at (some cursor) s = more_settled (get (some cursor)) (more_started s)

    unfoldable pub load_more : State T → State T
    unfolding more_cursor more_at
    load_more s = more_at (more_cursor s) s

    unfoldable pub load_more_times : ℕ → State T → State T
    load_more_times zero s = s
    load_more_times (suc n) s = load_more_times n (load_more s)
