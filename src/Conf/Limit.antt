-- ===== src/Conf/Limit.antt =====
-- paf/conf.py: what limits a class of resources gets.
use paf.Prelude.{
  ℕ, ◌≡◌, ◌≢◌, ◌⊎◌, refl, sym, ap, ◌∙◌, subst, true, false, Option, none, some, [], ◌∷◌, Text, ◌==◌,
  text_eq, text_beq, text_beq_iff, arith, inl, inr, Option-cases,
}
use paf.Prelude.Int.{pos, negsuc}
use paf.Proto.Props.{Json, str, int, bool, float, null, list, object, Members, no_members, member}
use paf.Sd.Resources.{ResourceType, Limits, at, set_at}
use paf.Conf.{
  format_error, Loaded, loaded, refused, limit_value, limit_type, set_limit, resource_class_copy,
}

-- The names of the resource types in a configuration file.
abbrev pub name_of : ResourceType → Text
name_of ResourceType.client = b'c' ∷ b'l' ∷ b'i' ∷ b'e' ∷ b'n' ∷ b't' ∷ b's' ∷ []
name_of ResourceType.subscription =
    b's' ∷ b'u' ∷ b'b' ∷ b's' ∷ b'c' ∷ b'r' ∷ b'i' ∷ b'p' ∷ b't' ∷ b'i' ∷ b'o' ∷ b'n' ∷ b's' ∷ []
name_of ResourceType.service = b's' ∷ b'e' ∷ b'r' ∷ b'v' ∷ b'i' ∷ b'c' ∷ b'e' ∷ b's' ∷ []

-- A value that is a limit, and the number that it stands for: Python's `True` is 1, and `False` 0.
pub data IsLimit : Json → ℕ → Type 0 where
  non_negative : (n : ℕ) → IsLimit (int (pos n)) n
  one : IsLimit (bool true) 1
  zero_ : IsLimit (bool false) 0

-- Every entry has the name of a resource type, and a limit.
abbrev pub AreLimits : Members → Type 0
AreLimits no_members = Unit
AreLimits (member name value ms) =
    ((t : ResourceType) × (name ≡ name_of t)) × ((n : ℕ) × IsLimit value n) × AreLimits ms

-- The entries take the limit of a type from one to another: each entry of that name sets it.
pub data Gives : Members → ResourceType → Option ℕ → Option ℕ → Type 0 where
  ends : (t : ResourceType) (o : Option ℕ) → Gives no_members t o o
  sets :
      (name : Text) (value : Json) (ms : Members) (t : ResourceType) (n : ℕ)
      (before after : Option ℕ)
      → name ≡ name_of t
      → IsLimit value n
      → Gives ms t (some n) after
      → Gives (member name value ms) t before after
  skips :
      (name : Text) (value : Json) (ms : Members) (t : ResourceType) (before after : Option ℕ)
      → name ≢ name_of t
      → Gives ms t before after
      → Gives (member name value ms) t before after

abbrev pub Copies : Members → Limits → Loaded Limits → Type 0
Copies ms limits (loaded limits') =
    AreLimits ms × ((t : ResourceType) → Gives ms t (at t limits) (at t limits'))
Copies ms limits (refused e) = (AreLimits ms → ⊥) × (e ≡ format_error)

limit_value-IsLimit : (value : Json) (n : ℕ) → limit_value value ≡ some n → IsLimit value n
limit_value-IsLimit (int (pos k)) n e =
    subst (IsLimit (int (pos k))) (ground arith) (non_negative k)
limit_value-IsLimit (int (negsuc k)) n e = absurd (ground arith)
limit_value-IsLimit (bool true) n e = subst (IsLimit (bool true)) (ground arith) one
limit_value-IsLimit (bool false) n e = subst (IsLimit (bool false)) (ground arith) zero_
limit_value-IsLimit (str s) n e = absurd (ground arith)
limit_value-IsLimit (float x) n e = absurd (ground arith)
limit_value-IsLimit null n e = absurd (ground arith)
limit_value-IsLimit (list js) n e = absurd (ground arith)
limit_value-IsLimit (object ms) n e = absurd (ground arith)

IsLimit-limit_value : (value : Json) (n : ℕ) → IsLimit value n → limit_value value ≡ some n
IsLimit-limit_value _ n (non_negative _) = refl
IsLimit-limit_value _ _ one = refl
IsLimit-limit_value _ _ zero_ = refl

limit_type-name_of : (t : ResourceType) → limit_type (name_of t) ≡ some t
unfolding limit_type text_beq
limit_type-name_of ResourceType.client = refl
limit_type-name_of ResourceType.subscription = refl
limit_type-name_of ResourceType.service = refl

named : (name : Text) (t : ResourceType) → limit_type name ≡ some t → (name == name_of t) ≡ true
unfolding limit_type
named name ResourceType.client e = ground arith
named name ResourceType.subscription e = ground arith
named name ResourceType.service e = ground arith

entry_eq :
    (name : Text) (value : Json) (ms : Members) (limits : Limits) (n : ℕ) (t : ResourceType)
    → limit_value value ≡ some n
    → limit_type name ≡ some t
    → resource_class_copy (member name value ms) limits
      ≡ resource_class_copy ms (set_at t (some n) limits)
unfolding resource_class_copy set_limit
entry_eq name value ms limits n t e₁ e₂ = ground arith

no_value :
    (name : Text) (value : Json) (ms : Members) (limits : Limits)
    → limit_value value ≡ none
    → resource_class_copy (member name value ms) limits ≡ refused format_error
unfolding resource_class_copy set_limit
no_value name value ms limits e = ground arith

no_type :
    (name : Text) (value : Json) (ms : Members) (limits : Limits)
    → limit_type name ≡ none
    → resource_class_copy (member name value ms) limits ≡ refused format_error
unfolding resource_class_copy set_limit
no_type name value ms limits e = ground arith

same_or_other :
    (t t' : ResourceType)
    → (t ≡ t')
      ⊎ ((t ≢ t') × ((o : Option ℕ) (limits : Limits) → at t (set_at t' o limits) ≡ at t limits))
same_or_other ResourceType.client ResourceType.client = inl refl
same_or_other ResourceType.client ResourceType.subscription = inr ((λ e. cc), λ o limits. refl)
same_or_other ResourceType.client ResourceType.service = inr ((λ e. cc), λ o limits. refl)
same_or_other ResourceType.subscription ResourceType.client = inr ((λ e. cc), λ o limits. refl)
same_or_other ResourceType.subscription ResourceType.subscription = inl refl
same_or_other ResourceType.subscription ResourceType.service = inr ((λ e. cc), λ o limits. refl)
same_or_other ResourceType.service ResourceType.client = inr ((λ e. cc), λ o limits. refl)
same_or_other ResourceType.service ResourceType.subscription = inr ((λ e. cc), λ o limits. refl)
same_or_other ResourceType.service ResourceType.service = inl refl

at-set_at : (t : ResourceType) (o : Option ℕ) (limits : Limits) → at t (set_at t o limits) ≡ o
at-set_at t o limits = ground arith

-- An entry that is taken, and what the others do then.
taken-Copies :
    (name : Text) (value : Json) (ms : Members) (limits : Limits) (n : ℕ) (t' : ResourceType)
    (r : Loaded Limits)
    → limit_value value ≡ some n
    → limit_type name ≡ some t'
    → Copies ms (set_at t' (some n) limits) r
    → Copies (member name value ms) limits r
taken-Copies name value ms limits n t' (refused err) e₁ e₂ (bad, format) =
    ((λ (_, _, rest). bad rest), format)
taken-Copies name value ms limits n t' (loaded limits') e₁ e₂ (good, gives) = (
  ((t', names), (n, limit), good),
  λ t. elim (same_or_other t t') [
    | inl same ↦
        sets name value ms t n (at t limits) (at t limits') (names ∙ ap name_of (sym same)) limit (
          subst (λ o. Gives ms t o (at t limits'))
            (ap (λ k. at t (set_at k (some n) limits)) (sym same) ∙ at-set_at t (some n) limits)
            (gives t))
    | inr (other, kept) ↦
        skips name value ms t (at t limits) (at t limits')
          (λ e. other (same_type t (ap limit_type e ∙ limit_type-name_of t)))
          (subst (λ o. Gives ms t o (at t limits')) (kept (some n) limits) (gives t))
  ],
)
  where
    names : name ≡ name_of t'
    names = (text_beq_iff name (name_of t')).0 (named name t' e₂)

    limit : IsLimit value n
    limit = limit_value-IsLimit value n e₁

    same_type : (t : ResourceType) → limit_type name ≡ some t → t ≡ t'
    same_type t e = ground (arith, e, e₂)

-- Copying a class of resources takes it exactly if every entry has the name of a resource type and a
-- value that is an integer of at least 0 or a Boolean. Then each limit is the one that the last entry
-- of its name sets, and the one of before where there is none. A class that is not taken is refused
-- with a `FormatError`.
pub resource_class_copy-Copies :
    (ms : Members) (limits : Limits) → Copies ms limits (resource_class_copy ms limits)
unfolding resource_class_copy
resource_class_copy-Copies no_members limits = (tt, λ t. ends t (at t limits))
resource_class_copy-Copies (member name value ms) limits = elim (Option-cases (limit_value value)) [
  | inl e₁ ↦
      subst (Copies (member name value ms) limits) (sym (no_value name value ms limits e₁))
        ((λ (_, (n, limit), _). absurd (ground (arith, IsLimit-limit_value value n limit))), refl)
  | inr (n, e₁) ↦ elim (Option-cases (limit_type name)) [
    | inl e₂ ↦
        subst (Copies (member name value ms) limits) (sym (no_type name value ms limits e₂)) (
          (λ ((t, names), _, _).
              absurd (ground (arith, ap limit_type names, limit_type-name_of t))),
          refl,
        )
    | inr (t, e₂) ↦
        subst (Copies (member name value ms) limits) (sym (entry_eq name value ms limits n t e₁ e₂))
          (taken-Copies name value ms limits n t (resource_class_copy ms (set_at t (some n) limits))
            e₁ e₂ (resource_class_copy-Copies ms (set_at t (some n) limits)))
  ]
]
