-- ===== src/Web/Client/Endpoints/Served.antt =====
-- apps/web/lib/indexer.ts on what indexer/src/api/routes.ts and indexer/src/worker/routes.ts serve: the
-- settlements of an answer as JSON, and what getSettlements makes of them.
use slasettle_hub.Prelude.{
  ℕ, ◌+◌, ◌≤◌, String, true, false, ◌||◌, Option, none, some, ◌==◌, ◌≡◌, refl, List, [], ◌∷◌, ◌++◌,
  arith, inl, inr,
}
use slasettle_hub.Js.{
  ℤ, pos, Number, int, Value, null, num, str, arr, obj, Values, nil, cons, Fields, end, field,
  lookup_field,
}
use slasettle_hub.Indexer.Api.Responses.{SettlementItem}
use slasettle_hub.Web.Texts.{is_hash}
use slasettle_hub.Web.Reads.{ReadError, indexer_response, Read, thrown, got, ◌>>=◌, Read-cases}
use slasettle_hub.Web.Client.{
  Browser, as_object, int_value, non_negative_int, largest_safe_integer, is_decimal, digits_value,
  not_an_int, quoted,
}
use slasettle_hub.Web.Client.Requests.{
  indexer_get, array_field, cursor_value, envelope, parse_items, element_name,
}
use slasettle_hub.Web.Client.Endpoints.{
  IndexedSettlement, PageOptions, parse_settlement, settlements_endpoint, get_settlements,
}
use slasettle_hub.Web.Client.Accepted.{
  non_negative_int-got, amount-got, timestamp-got, stellar_address-got, tx_hash-got, https_url-got,
}

-- `null` for a threshold that is not known
unfoldable pub threshold_json : Option Number → Value
threshold_json none = null
threshold_json (some n) = num n

-- The object of one settlement, with the keys in the order of the source.
unfoldable pub settlement_json : SettlementItem → Fields
unfolding threshold_json
settlement_json s = field "round_id" (num s.round_id) (
    field "votes_up" (num (int (pos s.votes_up))) (
      field "votes_down" (num (int (pos s.votes_down))) (
        field "quorum_threshold" (threshold_json s.quorum_threshold) (
          field "penalty_amount" (str s.penalty_amount) (
            field "beneficiary" (str s.beneficiary) (
              field "tx_hash" (str s.tx_hash) (
                field "ledger_close_time" (str s.ledger_close_time)
                  (field "explorer_url" (str s.explorer_url) end))))))))

unfoldable pub settlement_values : List SettlementItem → Values
settlement_values [] = nil
settlement_values (s ∷ ss) = cons (obj (settlement_json s)) (settlement_values ss)

unfoldable pub cursor_json : Option String → Value
cursor_json none = null
cursor_json (some cursor) = str cursor

-- The body of an answer.
unfoldable pub settlements_json : List SettlementItem → Option String → Value
unfolding settlement_values cursor_json
settlements_json items cursor =
    obj
      (field "data" (arr (settlement_values items)) (field "next_cursor" (cursor_json cursor) end))

-- A settlement that the client shows for one that is served.
pub record Shows (browser : Browser) (served : SettlementItem) (shown : IndexedSettlement)
    : Type 0 where
  pub round_id : served.round_id ≡ int (pos shown.round_id)
  pub round_id_safe : shown.round_id ≤ largest_safe_integer
  pub votes_up : shown.votes_up ≡ served.votes_up
  pub votes_up_safe : served.votes_up ≤ largest_safe_integer
  pub votes_down : shown.votes_down ≡ served.votes_down
  pub votes_down_safe : served.votes_down ≤ largest_safe_integer
  pub threshold : served.quorum_threshold ≡ some (int (pos shown.quorum_threshold))
  pub threshold_safe : shown.quorum_threshold ≤ largest_safe_integer
  pub penalty_digits : is_decimal served.penalty_amount ≡ true
  pub penalty : shown.penalty_amount ≡ digits_value 0 served.penalty_amount
  pub beneficiary : shown.beneficiary ≡ served.beneficiary
  pub beneficiary_set : (served.beneficiary == "") ≡ false
  pub beneficiary_valid :
      (browser.keys.is_valid_ed25519_public_key served.beneficiary
        || browser.keys.is_valid_contract served.beneficiary)
      ≡ true
  pub hash : is_hash served.tx_hash ≡ true
  pub hash_set : (served.tx_hash == "") ≡ false
  pub hash_lower : shown.tx_hash ≡ browser.to_lower_case served.tx_hash
  pub time_set : (served.ledger_close_time == "") ≡ false
  pub time_valid : browser.parses_date served.ledger_close_time ≡ true
  pub time : shown.ledger_close_time ≡ served.ledger_close_time
  pub url_set : (served.explorer_url == "") ≡ false
  pub url : browser.parse_url served.explorer_url ≡ some ("https:", shown.explorer_url)

abbrev pub AllShow : Browser → List SettlementItem → List IndexedSettlement → Type 0
AllShow browser [] [] = Unit
AllShow browser (s ∷ ss) (t ∷ ts) = Shows browser s t × AllShow browser ss ts
AllShow browser _ _ = ⊥

-- A settlement that is known to be served is shown.
parse_settlement-got :
    (browser : Browser) (endpoint : String) (served : SettlementItem) (shown : IndexedSettlement)
    → Shows browser served shown
    → parse_settlement browser endpoint (settlement_json served) ≡ got shown
unfolding parse_settlement settlement_json lookup_field threshold_json
parse_settlement-got browser endpoint served shown h =
    let fields : Fields = settlement_json served in
    let ids =
      non_negative_int-got fields "round_id" endpoint shown.round_id (rw h.round_id refl)
        h.round_id_safe in
    let ups =
      non_negative_int-got fields "votes_up" endpoint served.votes_up refl h.votes_up_safe in
    let downs =
      non_negative_int-got fields "votes_down" endpoint served.votes_down refl h.votes_down_safe in
    let quorums =
      non_negative_int-got fields "quorum_threshold" endpoint shown.quorum_threshold
        (rw h.threshold refl) h.threshold_safe in
    let penalties =
      amount-got fields "penalty_amount" endpoint served.penalty_amount refl h.penalty_digits in
    let beneficiaries =
      stellar_address-got fields "beneficiary" endpoint browser served.beneficiary refl
        h.beneficiary_set h.beneficiary_valid in
    let hashes =
      tx_hash-got fields "tx_hash" endpoint browser served.tx_hash refl h.hash_set h.hash in
    let times =
      timestamp-got fields "ledger_close_time" endpoint browser served.ledger_close_time refl
        h.time_set h.time_valid in
    let urls =
      https_url-got fields "explorer_url" endpoint browser served.explorer_url refl h.url_set
        h.url in
    simp (ids, ups, downs, quorums, penalties, beneficiaries, hashes, times, urls) (ground arith)

module _ (browser : Browser) (endpoint : String) where
  -- How getSettlements reads one element of `data`.
  abbrev read_settlement : ℕ → Value → Read IndexedSettlement
  read_settlement index v =
      as_object v endpoint (element_name browser "data" index) >>= parse_settlement browser endpoint

  parse_items-AllShow :
      (index : ℕ) (served : List SettlementItem) (shown : List IndexedSettlement)
      → AllShow browser served shown
      → parse_items browser read_settlement index (settlement_values served) ≡ got shown
  unfolding parse_items settlement_values as_object
  parse_items-AllShow index [] [] h = refl
  parse_items-AllShow index [] (t ∷ shown) h = absurd h
  parse_items-AllShow index (s ∷ served) [] h = absurd h
  parse_items-AllShow index (s ∷ served) (t ∷ shown) h =
      rw (parse_settlement-got browser endpoint s t h.0)
        (rw (parse_items-AllShow (index + 1) served shown h.1) refl)

  unknown_threshold :
      (s : SettlementItem)
      → s.quorum_threshold ≡ none
      → non_negative_int (settlement_json s) "quorum_threshold" endpoint
        ≡ thrown (
            indexer_response endpoint (quoted "quorum_threshold" " is not a non-negative integer."))
  unfolding non_negative_int settlement_json lookup_field threshold_json int_value not_an_int
  unknown_threshold s unknown = rw unknown refl

  -- A settlement whose threshold is not known is refused.
  parse_settlement-unknown :
      (s : SettlementItem)
      → s.quorum_threshold ≡ none
      → (e : ReadError) × (parse_settlement browser endpoint (settlement_json s) ≡ thrown e)
  unfolding parse_settlement
  parse_settlement-unknown s unknown =
      elim (Read-cases (non_negative_int (settlement_json s) "round_id" endpoint)) [
        | inr (e, h) ↦ (e, rw h refl)
        | inl (n, h) ↦
            elim (Read-cases (non_negative_int (settlement_json s) "votes_up" endpoint)) [
              | inr (e, k) ↦ (e, rw (h, k) refl)
              | inl (m, k) ↦
                  elim (Read-cases (non_negative_int (settlement_json s) "votes_down" endpoint)) [
                    | inr (e, j) ↦ (e, rw (h, k, j) refl)
                    | inl (l, j) ↦ (
                      indexer_response endpoint
                          (quoted "quorum_threshold" " is not a non-negative integer."),
                      rw (h, k, j, unknown_threshold s unknown) refl,
                    )
                  ]
            ]
      ]

  -- A list with a settlement whose threshold is not known is refused, or an element before it is.
  parse_items-unknown :
      (index : ℕ) (before : List SettlementItem) (s : SettlementItem) (after : List SettlementItem)
      → s.quorum_threshold ≡ none
      → (e : ReadError) × (parse_items browser read_settlement index
            (settlement_values (before ++ s ∷ after))
          ≡ thrown e)
  unfolding parse_items settlement_values as_object
  parse_items-unknown index [] s after unknown =
      let (e, h) = parse_settlement-unknown s unknown in (e, rw h refl)
  parse_items-unknown index (b ∷ before) s after unknown =
      let (e, h) = parse_items-unknown (index + 1) before s after unknown in
      elim (Read-cases (parse_settlement browser endpoint (settlement_json b))) [
        | inr (e', k) ↦ (e', rw k refl)
        | inl (t, k) ↦ (e, rw (k, h) refl)
      ]

module _ (browser : Browser) (sla_id : ℤ) (options : PageOptions) where
  -- A page that the indexer serves, whose settlements each pass the client's checks, is shown: all
  -- the settlements, in order, with the values that were served, and the same cursor.
  pub get_settlements-served :
      (endpoint : String) (served : List SettlementItem) (shown : List IndexedSettlement)
      (cursor : Option String)
      → settlements_endpoint browser sla_id options ≡ got endpoint
      → indexer_get browser endpoint ≡ got (settlements_json served cursor)
      → AllShow browser served shown
      → get_settlements browser sla_id options
        ≡ got (record { items = shown; next_cursor = cursor })
  unfolding get_settlements envelope settlements_json array_field cursor_value cursor_json
      lookup_field
  get_settlements-served endpoint served shown none asks answers h =
      rw (asks, answers, parse_items-AllShow browser endpoint 0 served shown h) refl
  get_settlements-served endpoint served shown (some cursor) asks answers h =
      rw (asks, answers, parse_items-AllShow browser endpoint 0 served shown h) refl

  -- A page with a settlement whose quorum threshold the indexer does not know, which it serves as
  -- null, is refused whole: the client throws and shows none of its settlements.
  pub get_settlements-unknown_threshold :
      (endpoint : String) (before : List SettlementItem) (s : SettlementItem)
      (after : List SettlementItem) (cursor : Option String)
      → settlements_endpoint browser sla_id options ≡ got endpoint
      → indexer_get browser endpoint ≡ got (settlements_json (before ++ s ∷ after) cursor)
      → s.quorum_threshold ≡ none
      → (e : ReadError) × (get_settlements browser sla_id options ≡ thrown e)
  unfolding get_settlements envelope settlements_json array_field cursor_value cursor_json
      lookup_field
  get_settlements-unknown_threshold endpoint before s after none asks answers unknown =
      let (e, h) = parse_items-unknown browser endpoint 0 before s after unknown in
      (e, rw (asks, answers, h) refl)
  get_settlements-unknown_threshold endpoint before s after (some cursor) asks answers unknown =
      let (e, h) = parse_items-unknown browser endpoint 0 before s after unknown in
      (e, rw (asks, answers, h) refl)
