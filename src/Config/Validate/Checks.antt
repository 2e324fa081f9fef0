-- ===== src/Config/Validate/Checks.antt =====
-- Lists of checks that refuse nothing.
use nexuscloud.Base.{
  ◌≡◌, refl, Bool, true, false, Option, none, some, List, [], ◌∷◌, ◌++◌, All, All-append_right,
  any_of, Bool-cases, inl, inr,
}
use nexuscloud.Config.Model.{Config}
use nexuscloud.Config.Validate.{
  Invalid, refuse_if, first_refusal, server_checks, login_checks, retention_checks, service_checks,
  all_checks, validate,
}

abbrev pub Passes : Option Invalid → Type 0
Passes check = check ≡ none

pub first_refusal-All :
    (checks : List (Option Invalid)) → first_refusal checks ≡ none → All Passes checks
unfolding first_refusal
first_refusal-All [] h = tt
first_refusal-All (none ∷ checks) h = (refl, first_refusal-All checks h)
first_refusal-All (some r ∷ checks) h = cc

pub Passes-false : (b : Bool) (r : Invalid) → Passes (refuse_if b r) → b ≡ false
Passes-false true r h = cc
Passes-false false r h = refl

pub All-append_left : (xs ys : List (Option Invalid)) → All Passes (xs ++ ys) → All Passes xs
All-append_left [] ys h = tt
All-append_left (x ∷ xs) ys h = (h.0, All-append_left xs ys h.1)

-- What no element of a list passes, each fails.
pub any_of-false {ℓ} :
    {A : Type ℓ} (f : A → Bool) (xs : List A) → any_of f xs ≡ false → All (λ x. f x ≡ false) xs
any_of-false f [] h = tt
any_of-false f (x ∷ xs) h = elim (Bool-cases (f x)) [
  | inl y ↦ cc (rw y at h)
  | inr n ↦ (n, any_of-false f xs (rw n at h))
]

pub All-any_of {ℓ} :
    {A : Type ℓ} (f : A → Bool) (xs : List A) → All (λ x. f x ≡ false) xs → any_of f xs ≡ false
All-any_of f [] h = refl
All-any_of f (x ∷ xs) h = rw (h.0, All-any_of f xs h.1) refl

-- The checks of an accepted configuration all pass.
pub validate-checks :
    (c : Config)
    → validate c ≡ none
    → All Passes (server_checks c)
      × All Passes (login_checks c)
      × All Passes (retention_checks c)
      × All Passes (service_checks c)
unfolding validate all_checks
validate-checks c h =
    let server = server_checks c in
    let login = login_checks c in
    let retention = retention_checks c in
    let service = service_checks c in
    let passed = first_refusal-All (all_checks c) h in
    let after = All-append_right Passes server (login ++ (retention ++ service)) passed in
    let last = All-append_right Passes login (retention ++ service) after in
    (
      All-append_left server (login ++ (retention ++ service)) passed,
      All-append_left login (retention ++ service) after,
      All-append_left retention service last,
      All-append_right Passes retention service last,
    )
