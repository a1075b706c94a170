-- ===== src/Approval.antt =====
-- packages/shared-types/src/approval.ts: the configuration of an approval step, and who may decide.
pub mod Laws
use Prim.Native.String.{[], ◌∷◌}
use flowmind.Prelude.{
  ℕ, zero, suc, ◌*◌, code, String, Bool, true, false, not, ◌&&◌, ◌||◌, Option, none, some, List, [],
  ◌∷◌, ◌==◌, if◌then◌else◌, leb, nat_beq, map, foldl, any, is_empty, has, add,
}
use flowmind.Json.{
  Number, nan, infinite, finite, Value, undefined, null, str, arr, Fields, items, get, is_integer,
  below, above, Host, to_text, to_number,
}
use flowmind.Text

pub data Error : Type 0 where
  title_required expiration_invalid roles_invalid : Error

pub data Result {ℓ} (A : Type ℓ) : Type ℓ where
  ok : A → Result A
  err : Error → Result A

-- The policy is always ANY_AUTHORIZED_USER.
pub record ApprovalConfig : Type 0 where
  pub title : String
  pub description : Option String
  pub summary : Option String
  pub expiration_seconds : Option Number
  pub allowed_roles : List String

abbrev pub max_expiration_seconds : ℕ
max_expiration_seconds = 365 * 24 * 60 * 60

unfoldable pub approval_allowed_roles : List String
approval_allowed_roles = "editor" ∷ "admin" ∷ "owner" ∷ []

-- The character " " in place of a control character.
unfoldable pub blank_controls : String → String
blank_controls [] = []
blank_controls (c ∷ s) =
    if leb (code c) 31 || nat_beq (code c) 127
    then Text.append " " (blank_controls s)
    else c ∷ blank_controls s

-- `replace(/<[^>]*>/g, "")`; `inside` a tag everything up to the next ">" is dropped, and "<" opens
-- a tag only if a ">" follows.
unfoldable pub strip_tags : (inside : Bool) → String → String
strip_tags inside [] = []
strip_tags true (c ∷ s) =
    let out = strip_tags false s in
    let deeper = strip_tags true s in if nat_beq (code c) b'>' then out else deeper
strip_tags false (c ∷ s) =
    let tag = strip_tags true s in
    let kept : String = c ∷ strip_tags false s in
    if nat_beq (code c) b'<' && Text.includes ">" s then tag else kept

-- `text` of the source
unfoldable pub clean_text : Value → ℕ → String
unfolding blank_controls strip_tags Text.includes Text.trim Text.take
clean_text (str s) max = Text.take max (Text.trim (strip_tags false (blank_controls s)))
clean_text _ max = []

abbrev pub non_empty : String → Option String
non_empty s = if s == "" then none else some s

-- The number that `expirationSeconds` holds; `none` is `undefined`.
unfoldable pub expiration_of : Host → Value → Option Number
unfolding to_number
expiration_of host undefined = none
expiration_of host null = none
expiration_of host (str s) = if s == "" then none else some (to_number host (str s))
expiration_of host v = some (to_number host v)

abbrev pub is_bad_expiration : Option Number → Bool
is_bad_expiration none = false
is_bad_expiration (some n) = not (is_integer n) || below n 1 || above n max_expiration_seconds

unfoldable pub roles_of : Host → Value → List String
unfolding to_text
roles_of host (arr vs) = map (to_text host) (items vs)
roles_of host _ = "editor" ∷ "admin" ∷ "owner" ∷ []

-- The object that is returned.
unfoldable pub assemble : Host → Fields → ApprovalConfig
unfolding get clean_text expiration_of roles_of add
assemble host value = record {
  title = clean_text (get "title" value) 160;
  description = non_empty (clean_text (get "description" value) 2000);
  summary = non_empty (clean_text (get "summary" value) 4000);
  expiration_seconds = expiration_of host (get "expirationSeconds" value);
  allowed_roles = foldl (λ s r. add r s) [] (roles_of host (get "allowedRoles" value));
}

abbrev pub are_bad_roles : List String → Bool
are_bad_roles roles = is_empty roles || any (λ r. not (has r approval_allowed_roles)) roles

unfoldable pub normalize_approval_config : Host → Fields → Result ApprovalConfig
unfolding get clean_text expiration_of roles_of is_integer below above approval_allowed_roles has
    assemble
normalize_approval_config host value =
    if clean_text (get "title" value) 160 == ""
    then err title_required
    else if is_bad_expiration (expiration_of host (get "expirationSeconds" value))
    then err expiration_invalid
    else if are_bad_roles (roles_of host (get "allowedRoles" value))
    then err roles_invalid
    else ok (assemble host value)

-- `normalizeApprovalConfig` does not throw.
unfoldable pub is_approval_config : Host → Fields → Bool
unfolding normalize_approval_config
is_approval_config host value = elim (normalize_approval_config host value) [
  | ok c ↦ true
  | err e ↦ false
]

unfoldable pub can_decide_approval : String → List String → Bool
unfolding has
can_decide_approval role allowed_roles =
    role == "owner" || role == "admin" || (role == "editor" && has "editor" allowed_roles)
