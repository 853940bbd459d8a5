-- ===== src/Config/Sweep.antt =====
-- How the configuration reads the environment.
use meme_launchpad_backend.Common.{
  ◌≡◌, ap, refl, sym, ◌∙◌, String, none, some, ◌==◌, string_eq, Option-cases, inl, inr,
  if◌then◌else◌,
}
use meme_launchpad_backend.Config.{Packages}
use meme_launchpad_backend.Config.Load.{LookupEnv, or_else, non_empty, load_set, load}

-- the text that a shell would give for a variable
abbrev pub text : LookupEnv → String → String
text lookup name = or_else "" (lookup name)

non_empty-text :
    (lookup : LookupEnv) (name : String)
    → non_empty lookup name ≡ (if text lookup name == "" then none else some (text lookup name))
unfolding non_empty
non_empty-text lookup name = elim (Option-cases (lookup name)) [
  | inl unset ↦ rw (unset, non_empty) refl
  | inr (value, set) ↦ rw (set, non_empty) refl
]

same_non_empty :
    (lookup lookup' : LookupEnv) (name : String)
    → text lookup name ≡ text lookup' name
    → non_empty lookup name ≡ non_empty lookup' name
same_non_empty lookup lookup' name same =
    non_empty-text lookup name
    ∙ ap (λ t. if t == "" then none else some t) same
    ∙ sym (non_empty-text lookup' name)

-- `Load` cannot tell a variable that is not set from one that is empty: two environments that give
-- every variable the same text, none counting as the empty one, load the same configuration or
-- fail with the same error.
load-text :
    (lib : Packages) (lookup lookup' : LookupEnv)
    → ((name : String) → text lookup name ≡ text lookup' name)
    → load lib lookup ≡ load lib lookup'
unfolding load
load-text lib lookup lookup' same = λ i.
    load_set (λ name. same_non_empty lookup lookup' name (same name) i) lib
      (same "REDIS_PASSWORD" i)
