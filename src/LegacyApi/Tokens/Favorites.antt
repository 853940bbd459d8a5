-- ===== src/LegacyApi/Tokens/Favorites.antt =====
-- Favorites as a set of pairs of a user and a token.
use meme_launchpad_backend.Common.{
  ℕ, ◌≡◌, refl, sym, ◌∙◌, ap, Bool, true, false, Option, none, some, List, [], ◌∷◌, ◌==◌, nat_eq,
  pair_eq, Bool-cases, Option-cases, inl, inr, if◌then◌else◌,
}
use meme_launchpad_backend.Fallible.{Result, ok}
use meme_launchpad_backend.Postgres.Table.{
  Table, lookup, insert_new, delete_row, lookup-delete_row, lookup-insert_new,
}
use meme_launchpad_backend.Postgres.Transaction.{World, next_fault}
use meme_launchpad_backend.Postgres.Query.{query}
use meme_launchpad_backend.LegacyApi.Wallet.{Response, failure, success}
use meme_launchpad_backend.LegacyApi.Tokens.{Tables}
use meme_launchpad_backend.LegacyApi.Tokens.UserFavorites.{
  has_id, exists_token, insert_favorite, execute, add_favorite, remove_favorite, is_favorite,
  favorite_token, unfavorite_token,
}

abbrev pub is_some : Option ℕ → Bool
is_some none = false
is_some (some _) = true

-- whether a pair is in the table
abbrev pub contains : Tables → ℕ × ℕ → Bool
contains d pair = is_some (lookup pair d.favorites)

-- a request of a user, and the set after it, if it succeeds
pub data Act : Type 0 where
  like : ℕ → ℕ → ℕ → Act
  unlike : ℕ → ℕ → Act

unfoldable pub act : Act → World Tables → Response (Unit {0}) × World Tables
act (like now user token) w = favorite_token now user token w
act (unlike user token) w = unfavorite_token user token w

abbrev pub changed : Act → (ℕ × ℕ → Bool) → ℕ × ℕ → Bool
changed (like now user token) set pair = if (user, token) == pair then true else set pair
changed (unlike user token) set pair = if (user, token) == pair then false else set pair

abbrev pub after : Response (Unit {0}) → Act → (ℕ × ℕ → Bool) → ℕ × ℕ → Bool
after (success _) a set = changed a set
after (failure _ _) a set = set

-- the requests one after another, on the tables and on the set
unfoldable pub runs : List Act → World Tables → World Tables
runs [] w = w
runs (a ∷ rest) w = runs rest (act a w).1

unfoldable pub set_after : List Act → World Tables → (ℕ × ℕ → Bool) → ℕ × ℕ → Bool
set_after [] w set = set
set_after (a ∷ rest) w set = set_after rest (act a w).1 (after (act a w).0 a set)

goes :
    (pair k : ℕ × ℕ) (t : Table (ℕ × ℕ) ℕ)
    → is_some (lookup pair (delete_row k t))
      ≡ (if k == pair then false else is_some (lookup pair t))
goes pair k t = elim (Bool-cases (k == pair)) [
  | inl same ↦ rw same (ap is_some (lookup-delete_row k pair t) ∙ rw same refl)
  | inr other ↦ rw other (ap is_some (lookup-delete_row k pair t) ∙ rw other refl)
]

-- a pair that is there
stays :
    (pair k : ℕ × ℕ) (t : Table (ℕ × ℕ) ℕ) {time : ℕ}
    → lookup k t ≡ some time
    → is_some (lookup pair t) ≡ (if k == pair then true else is_some (lookup pair t))
stays pair k t there = elim (Bool-cases (k == pair)) [
  | inr other ↦ rw other refl
  | inl same ↦
      let here = ap (λ p. lookup p t) (sym ((pair_eq.same_iff k pair).0 same)) ∙ there in
      rw same (rw here refl)
]

comes :
    (pair k : ℕ × ℕ) (time : ℕ) (t : Table (ℕ × ℕ) ℕ)
    → is_some (lookup pair (insert_new k time t))
      ≡ (if k == pair then true else is_some (lookup pair t))
comes pair k time t = elim (Bool-cases (k == pair)) [
  | inl same ↦ rw same (ap is_some (lookup-insert_new k pair time t) ∙ rw same refl)
  | inr other ↦ rw other (ap is_some (lookup-insert_new k pair time t) ∙ rw other refl)
]

like-changes :
    (now user token : ℕ) (w : World Tables) (pair : ℕ × ℕ)
    → let o = favorite_token now user token w in
      contains o.1.db pair ≡ after o.0 (like now user token) (contains w.db) pair
unfolding favorite_token add_favorite execute insert_favorite
like-changes now user token w pair = elim (Bool-cases (user == 0)) [
  | inl nobody ↦ rw nobody refl
  | inr known ↦ elim (Bool-cases (next_fault w.faults).0) [
    | inl bad ↦ rw known (rw bad refl)
    | inr fine ↦ elim (Option-cases (lookup (user, token) w.db.favorites)) [
      | inr (time, there) ↦
          rw known (rw fine (rw there (stays pair (user, token) w.db.favorites there)))
      | inl fresh ↦ elim (Bool-cases (has_id user w.db.users)) [
        | inr stranger ↦ rw known (rw fine (rw fresh (rw stranger refl)))
        | inl member ↦ elim (Bool-cases (exists_token token w.db.tokens)) [
          | inr missing ↦ rw known (rw fine (rw fresh (rw member (rw missing refl))))
          | inl listed ↦ rw known (
              rw fine
                (rw fresh (rw member (rw listed (comes pair (user, token) now w.db.favorites)))))
        ]
      ]
    ]
  ]
]

unlike-changes :
    (user token : ℕ) (w : World Tables) (pair : ℕ × ℕ)
    → let o = unfavorite_token user token w in
      contains o.1.db pair ≡ after o.0 (unlike user token) (contains w.db) pair
unfolding unfavorite_token remove_favorite execute
unlike-changes user token w pair = elim (Bool-cases (user == 0)) [
  | inl nobody ↦ rw nobody refl
  | inr known ↦ elim (Bool-cases (next_fault w.faults).0) [
    | inl bad ↦ rw known (rw bad refl)
    | inr fine ↦ rw known (rw fine (goes pair (user, token) w.db.favorites))
  ]
]

act-changes :
    (a : Act) (w : World Tables) (pair : ℕ × ℕ)
    → contains (act a w).1.db pair ≡ after (act a w).0 a (contains w.db) pair
unfolding act
act-changes (like now user token) w pair = like-changes now user token w pair
act-changes (unlike user token) w pair = unlike-changes user token w pair

after-same :
    (r : Response (Unit {0})) (a : Act) (f g : ℕ × ℕ → Bool)
    → ((pair : ℕ × ℕ) → f pair ≡ g pair)
    → (pair : ℕ × ℕ) → after r a f pair ≡ after r a g pair
after-same (success _) (like now user token) f g h pair =
    ap (λ b. if (user, token) == pair then true else b) (h pair)
after-same (success _) (unlike user token) f g h pair =
    ap (λ b. if (user, token) == pair then false else b) (h pair)
after-same (failure _ _) a f g h pair = h pair

runs-set_after :
    (acts : List Act) (w : World Tables) (set : ℕ × ℕ → Bool)
    → ((pair : ℕ × ℕ) → contains w.db pair ≡ set pair)
    → (pair : ℕ × ℕ) → contains (runs acts w).db pair ≡ set_after acts w set pair
unfolding runs set_after
runs-set_after [] w set h pair = h pair
runs-set_after (a ∷ rest) w set h pair =
    runs-set_after rest (act a w).1 (after (act a w).0 a set)
      (λ p. act-changes a w p ∙ after-same (act a w).0 a (contains w.db) set h p) pair

-- Whatever statements fail, after any requests to add and to remove favorites a query that does not fail
-- finds just the pairs of the set that was there, changed by each request with a successful reply in its
-- pair, and by no other request.
pub is_favorite-set_after :
    (acts : List Act) (w : World Tables) (user token : ℕ)
    → (is_favorite user token (record (runs acts w) { faults = [] })).0
      ≡ ok (set_after acts w (contains w.db) (user, token))
unfolding is_favorite query
is_favorite-set_after acts w user token =
    found (lookup (user, token) (runs acts w).db.favorites)
    ∙ ap ok (runs-set_after acts w (contains w.db) (λ pair. refl) (user, token))
  where
    found :
        (o : Option ℕ)
        → ◌≡◌ {A = Result Bool} (ok (elim o [ none ↦ false | some _ ↦ true ])) (ok (is_some o))
    found none = refl
    found (some _) = refl
