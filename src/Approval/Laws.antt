-- ===== src/Approval/Laws.antt =====
-- What a normalised approval configuration satisfies.
use Prim.Native.String.{[], ◌∷◌}
use flowmind.Prelude.{
  code, leb, ◌-◌, Bool-cases, inl, inr, ℕ, ◌≤◌, String, ◌≡◌, ◌≢◌, Bool, true, false, not, ◌||◌,
  Option, none, some, List, [], ◌∷◌, arith, ◌==◌, ◌++◌, subst, sym, ap, ◌∙◌, ◌↔◌, ◌⊎◌, eq_refl,
  has-append, IsDistinct, eq_iff, foldl, any, is_empty, has, has-add, has-nil, has-cons, add,
  Bool-cases, inl, inr,
}
use flowmind.Json.{Value, undefined, str, Number, Fields, is_integer, below, above, Host, get}
use flowmind.Text
use flowmind.Approval.{
  ok, ApprovalConfig, max_expiration_seconds, approval_allowed_roles, clean_text, non_empty,
  expiration_of, is_bad_expiration, roles_of, normalize_approval_config, assemble, are_bad_roles,
  can_decide_approval,
}

take-le : (n : ℕ) (s : String) → Text.utf16_length (Text.take n s) ≤ n
unfolding Text.take
take-le n [] = omega arith
take-le n (c ∷ s) = elim (Bool-cases (leb (Text.units (code c)) n)) [
  | inl fits ↦
      let enough : Text.units (code c) ≤ n = ground arith in
      rw fits (omega (arith, take-le (n - Text.units (code c)) s))
  | inr over ↦ rw over (omega arith)
]

foldl-add-has :
    (s roles : List String) (j : String)
    → has j (foldl (λ t r. add r t) s roles) ≡ (has j s || has j roles)
foldl-add-has s [] j = ground (arith, has-nil j)
foldl-add-has s (r ∷ roles) j =
    ground (arith, foldl-add-has (add r s) roles j, has-add j r s, has-cons j r roles)

has-snoc : (j k : String) (s : List String) → has j (s ++ k ∷ []) ≡ (has j s || (k == j))
has-snoc j k s = ground (arith, has-append j s (k ∷ []), has-cons j k [], has-nil j)

IsDistinct-snoc :
    (s : List String) (k : String) → IsDistinct s → has k s ≡ false → IsDistinct (s ++ k ∷ [])
IsDistinct-snoc [] k d new = (has-nil k, tt)
IsDistinct-snoc (x ∷ s) k (fresh, d) new = (
  ground (arith, has-snoc x k s, has-cons k x s, eq_iff x k, eq_iff k x),
  IsDistinct-snoc s k d (ground (arith, has-cons k x s)),
)

IsDistinct-add : (k : String) (s : List String) → IsDistinct s → IsDistinct (add k s)
unfolding add
IsDistinct-add k s d = elim (Bool-cases (has k s)) [
  | inl old ↦ rw old d
  | inr new ↦ rw new (IsDistinct-snoc s k d new)
]

IsDistinct-foldl :
    (s roles : List String) → IsDistinct s → IsDistinct (foldl (λ t r. add r t) s roles)
IsDistinct-foldl s [] d = d
IsDistinct-foldl s (r ∷ roles) d = IsDistinct-foldl (add r s) roles (IsDistinct-add r s d)

any-false :
    (p : String → Bool) (xs : List String) (k : String)
    → any (λ r. not (p r)) xs ≡ false
    → has k xs ≡ true
    → p k ≡ true
any-false p [] k h mem = cc (has-nil k)
any-false p (x ∷ xs) k h mem = elim (Bool-cases (x == k)) [
  | inl same ↦ subst (λ j. p j ≡ true) ((eq_iff x k).0 same) (ground arith)
  | inr other ↦ any-false p xs k (ground arith) (ground (arith, has-cons k x xs))
]

-- What the rest of the program may rely on.
pub record IsNormal (c : ApprovalConfig) : Type 0 where
  pub title_present : c.title ≢ ""
  pub title_short : Text.utf16_length c.title ≤ 160
  pub description_short : (d : String) → c.description ≡ some d → Text.utf16_length d ≤ 2000
  pub summary_short : (d : String) → c.summary ≡ some d → Text.utf16_length d ≤ 4000
  pub expires :
      (n : Number)
      → c.expiration_seconds ≡ some n
      → (is_integer n ≡ true) × (below n 1 ≡ false) × (above n max_expiration_seconds ≡ false)
  pub roles_allowed :
      (r : String) → has r c.allowed_roles ≡ true → has r approval_allowed_roles ≡ true
  pub roles_distinct : IsDistinct c.allowed_roles
  pub roles_present : c.allowed_roles ≢ []

clean_text-le : (v : Value) (max : ℕ) → Text.utf16_length (clean_text v max) ≤ max
unfolding clean_text
clean_text-le (str s) max = take-le max _
clean_text-le undefined max = omega arith
clean_text-le _ max = omega arith

non_empty-le :
    (v : Value) (max : ℕ) (d : String)
    → non_empty (clean_text v max) ≡ some d
    → Text.utf16_length d ≤ max
non_empty-le v max d h = elim (Bool-cases (clean_text v max == "")) [
  | inl e ↦ absurd (ground arith)
  | inr e ↦ subst (λ s. Text.utf16_length s ≤ max) (ground arith) (clean_text-le v max)
]

nonempty-ne :
    (xs ys : List String) → is_empty xs ≡ false → ((k : String) → has k ys ≡ has k xs) → ys ≢ []
nonempty-ne [] ys h same e = cc
nonempty-ne (x ∷ xs) ys h same e = cc (same x, ap (has x) e, has-nil x, ground-self x xs)
  where
    ground-self : (k : String) (ks : List String) → has k (k ∷ ks) ≡ true
    ground-self k ks = ground (arith, has-cons k k ks, eq_refl k)

good_expiration :
    (o : Option Number) (n : Number)
    → is_bad_expiration o ≡ false
    → o ≡ some n
    → (is_integer n ≡ true) × (below n 1 ≡ false) × (above n max_expiration_seconds ≡ false)
good_expiration none n h e = cc
good_expiration (some m) n h e =
    let same : m ≡ n = cc in
    subst
      (λ k. (is_integer k ≡ true) × (below k 1 ≡ false) × (above k max_expiration_seconds ≡ false))
      same (ground arith)

module _ (host : Host) (value : Fields) where
  abbrev roles : List String
  roles = roles_of host (get "allowedRoles" value)

  has-roles : (r : String) → has r (foldl (λ t k. add k t) [] roles) ≡ has r roles
  has-roles r = ground (arith, foldl-add-has [] roles r, has-nil r)

  assemble-IsNormal :
      (clean_text (get "title" value) 160 == "") ≡ false
      → is_bad_expiration (expiration_of host (get "expirationSeconds" value)) ≡ false
      → are_bad_roles roles ≡ false
      → IsNormal (assemble host value)
  unfolding assemble
  assemble-IsNormal titled timely allowed = record {
    title_present = λ e. ground (arith, eq_iff (clean_text (get "title" value) 160) "");
    title_short = clean_text-le (get "title" value) 160;
    description_short = non_empty-le (get "description" value) 2000;
    summary_short = non_empty-le (get "summary" value) 4000;
    expires = λ n e. good_expiration _ n timely e;
    roles_allowed = λ r h.
        any-false (λ k. has k approval_allowed_roles) roles r (ground arith)
          (sym (has-roles r) ∙ h);
    roles_distinct = IsDistinct-foldl [] roles tt;
    roles_present = nonempty-ne roles _ (ground arith) has-roles;
  }

  accepted :
      (c : ApprovalConfig)
      → normalize_approval_config host value ≡ ok c
      → ((clean_text (get "title" value) 160 == "") ≡ false)
        × (is_bad_expiration (expiration_of host (get "expirationSeconds" value)) ≡ false)
        × (are_bad_roles roles ≡ false)
        × (assemble host value ≡ c)
  unfolding normalize_approval_config
  accepted c h = (ground arith, ground arith, ground arith, ground arith)

-- A configuration that the normaliser accepts has a title, texts within their limits, an expiration
-- that is a whole number of seconds from 1 to a year if there is one, and a list of roles that is
-- not empty, has no duplicates and names only the three roles that may be allowed.
pub normalize-IsNormal :
    (host : Host) (value : Fields) (c : ApprovalConfig)
    → normalize_approval_config host value ≡ ok c
    → IsNormal c
normalize-IsNormal host value c h =
    let (titled, timely, allowed, same) = accepted host value c h in
    subst IsNormal same (assemble-IsNormal host value titled timely allowed)

-- A role may decide exactly if it is owner or admin, or editor where the step allows editors; so an
-- owner or an admin decides whatever roles the step names, and no other role ever does.
can_decide_iff :
    (role : String) (allowed : List String)
    → (can_decide_approval role allowed ≡ true)
      ↔ ((role ≡ "owner") ⊎ (role ≡ "admin") ⊎ ((role ≡ "editor") × (has "editor" allowed ≡ true)))
unfolding can_decide_approval
can_decide_iff role allowed =
    ground (arith, eq_iff role "owner", eq_iff role "admin", eq_iff role "editor")
