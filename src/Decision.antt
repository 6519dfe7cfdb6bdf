-- ===== src/Decision.antt =====
-- Closed choices by a decision model, crates/aver-core/src/decision.rs. A confidence is an f64: its
-- type and its comparison are parameters, and so is the transport to the model. serde_json's value
-- for the answer is `Raw`.
pub mod Scopes
pub mod Suggested
pub mod Predicates
use aver.Prelude.{
  ℕ, suc, Bool, true, false, Option, none, some, List, [], ◌∷◌, ◌-◌, ◌==◌, ◌||◌, ltb, leb, length,
  list_eq, nat_eq, if◌then◌else◌,
}
use aver.Text.{byte_len}

abbrev pub Text : Type 0
Text = List ℕ

abbrev pub min_options : ℕ
min_options = 2

abbrev pub max_options : ℕ
max_options = 24

-- The counts and texts of the messages are left out; `transport` is `Http` and `Json`.
pub data DecisionError : Type 0 where
  too_few_options too_many_options duplicate_option description_count_mismatch : DecisionError
  invalid_choice unavailable transport : DecisionError

pub record Decision : Type 0 where
  pub state : Text
  pub question : Text
  pub options : List Text
  pub descriptions : Option (List Text)

-- `HashSet::contains`
unfoldable pub seen_before : Text → List Text → Bool
seen_before option [] = false
seen_before option (s ∷ seen) = s == option || seen_before option seen

abbrev pub is_empty : Text → Bool
is_empty [] = true
is_empty (c ∷ s) = false

-- The loop of `validate`: whether an option is empty or was seen before.
unfoldable pub has_duplicate : List Text → List Text → Bool
unfolding seen_before
has_duplicate seen [] = false
has_duplicate seen (o ∷ options) =
    is_empty o || seen_before o seen || has_duplicate (o ∷ seen) options

abbrev pub mismatch : ℕ → Option (List Text) → Option DecisionError
mismatch count none = none
mismatch count (some ds) = if length ds == count then none else some description_count_mismatch

-- `Decision::validate`: the error, if any.
unfoldable pub validate : Decision → Option DecisionError
unfolding has_duplicate
validate d =
    if ltb (length d.options) min_options
    then some too_few_options
    else if ltb max_options (length d.options)
    then some too_many_options
    else if has_duplicate [] d.options
    then some duplicate_option
    else mismatch (length d.options) d.descriptions

pub data Decided (A : Type 0) : Type 0 where
  decided : A → Decided A
  undecided : DecisionError → Decided A

pub record Choice (F : Type 0) : Type 0 where
  pub index : ℕ
  pub confidence : Option F
  pub model : Text

abbrev floor_met : {F : Type 0} → (F → F → Bool) → F → Option F → Bool
floor_met at_least min none = false
floor_met at_least min (some confidence) = at_least confidence min

-- `Choice::meets`
unfoldable pub meets : {F : Type 0} → (F → F → Bool) → Choice F → F → Bool
meets at_least choice min = floor_met at_least min choice.confidence

-- The field `choice` of an answer: a text, a number (where it fits a usize), or something else.
pub data Raw : Type 0 where
  key : Text → Raw
  number : Option ℕ → Raw
  other : Raw

abbrev pub next_of : Option ℕ → Option ℕ
next_of none = none
next_of (some i) = some (suc i)

-- `iter().position(|&option| option == key)`
unfoldable pub position : Text → List Text → Option ℕ
position k [] = none
position k (o ∷ options) =
    let rest = next_of (position k options) in if o == k then some 0 else rest

abbrev pub in_range : ℕ → Option ℕ → Option ℕ
in_range count none = none
in_range count (some n) = if ltb n count then some n else none

abbrev pub index_of : List Text → Option Raw → Option ℕ
index_of options none = none
index_of options (some (key k)) = position k options
index_of options (some (number n)) = in_range (length options) n
index_of options (some other) = none

abbrev pub found_at : {F : Type 0} → Option F → Option ℕ → Decided (ℕ × Option F)
found_at confidence none = undecided invalid_choice
found_at confidence (some i) = decided (i, confidence)

-- `OllamaDecisionClient::parse_response`, from the answer's `choice` and `confidence`.
unfoldable pub parse_response :
    {F : Type 0} → Option Raw → Option F → List Text → Decided (ℕ × Option F)
unfolding position
parse_response raw confidence options = found_at confidence (index_of options raw)

abbrev pub chosen : {F : Type 0} → Text → Decided (ℕ × Option F) → Decided (Choice F)
chosen model (undecided e) = undecided e
chosen model (decided (i, confidence)) =
    decided (record { index = i; confidence = confidence; model = model })

abbrev pub answered :
    {F : Type 0} → Text → List Text → Option (Option Raw × Option F) → Decided (Choice F)
answered model options none = undecided transport
answered model options (some (raw, confidence)) =
    chosen model (parse_response raw confidence options)

abbrev pub decide_valid :
    {F : Type 0} → Option DecisionError → Decided (Choice F) → Decided (Choice F)
decide_valid none next = next
decide_valid (some e) next = undecided e

-- `OllamaDecisionClient::decide`; `post` sends the request and reads the answer's two fields.
unfoldable pub decide :
    {F : Type 0}
    → (post : Decision → Option (Option Raw × Option F)) → (model : Text) → Decision
    → Decided (Choice F)
unfolding validate parse_response
decide post model d = decide_valid (validate d) (answered model d.options (post d))

-- `truncate_bytes`: the longest prefix of whole characters within `max` bytes.
unfoldable pub truncate_bytes : ℕ → Text → Text
unfolding byte_len
truncate_bytes max [] = []
truncate_bytes max (c ∷ s) =
    let rest = truncate_bytes (max - byte_len (c ∷ [])) s in
    if leb (byte_len (c ∷ [])) max then c ∷ rest else []
