-- ===== src/Auth/Users/Accounts.antt =====
-- Which user a login is for.
use mathlib.Core.Path.{subst}
use meme_launchpad_backend.Common.{
  ℕ, ◌+◌, ◌≡◌, refl, sym, ◌∙◌, ap, String, Bool, true, false, some, some-injective, ◌∷◌, Bool-cases,
  Option-cases, inl, inr, ◌==◌, eq_iff, ==_refl, nat_eq, string_eq,
}
use meme_launchpad_backend.Postgres.Table.{Table, lookup}
use meme_launchpad_backend.Postgres.Transaction.{Result-cases, ok}
use meme_launchpad_backend.Fallible.{ok-injective}
use meme_launchpad_backend.Auth.{User, LoginResult, delete_stored, SiweConfig, Packages}
use meme_launchpad_backend.Auth.Service.{
  AuthState, find_or_create, issue_token, admit, consume, login,
}
use meme_launchpad_backend.Auth.Login.{login-Checked}
use meme_launchpad_backend.Auth.Users.Keeps.{
  IsNumbered, IsKept, Grows, same_key, inserted-IsKept, inserted-IsNumbered, first,
}
use meme_launchpad_backend.Auth.Users.{Users, find_user, create_user, user_repository}

module _ (lower : String → String) (lib : Packages) (cfg : SiweConfig) where
  -- a login while the database can be reached, and while it can not
  found-Grows :
      (a : String) (rows : Table String User) (next_id : ℕ) (reachable : Bool)
      → let u : Users = record { rows = rows; next_id = next_id; reachable = reachable } in
        let (r, v) = find_or_create lib cfg (user_repository lower) a u in Grows (lower a) u r v
  unfolding find_or_create find_user create_user
  found-Grows a rows next_id false = record {
    kept = λ k p h. h;
    numbered = λ h. h;
    found = λ p h. absurd cc;
  }
  found-Grows a rows next_id true = elim (Option-cases (lookup (lower a) rows)) [
    | inr (q, here) ↦
        rw (here, find_or_create)
          (record {
            kept = λ k p h. h;
            numbered = λ h. h;
            found = λ p h. here ∙ ap some (ok-injective h);
          })
    | inl fresh ↦
        let new : User = record { id = next_id; user_address = a } in
        let u : Users = record { rows = rows; next_id = next_id; reachable = true } in
        let v : Users = record u { rows = (lower a, new) ∷ rows; next_id = next_id + 1 } in
        rw (fresh, find_or_create)
          (rw (fresh, create_user)
            (record {
              kept = inserted-IsKept (lower a) new u v refl fresh;
              numbered = inserted-IsNumbered (lower a) new u v refl fresh refl refl;
              found = λ p h. first (lower a) new u ∙ ap some (ok-injective h);
            }))
  ]

  find_or_create-Grows :
      (a : String) (u : Users)
      → let (r, v) = find_or_create lib cfg (user_repository lower) a u in Grows (lower a) u r v
  find_or_create-Grows a u = found-Grows a u.rows u.next_id u.reachable

  -- the users after other logins, and while the database goes away and comes back
  pub data Later (u : Users) : Users → Type 0 where
    at_once : Later u u
    asked :
        {v : Users} (a : String)
        → Later u v
        → Later u (find_or_create lib cfg (user_repository lower) a v).1
    outage :
        {v : Users} (reachable : Bool) → Later u v → Later u (record v { reachable = reachable })

  Later-IsKept : {u v : Users} → Later u v → IsKept u v
  Later-IsKept at_once k p h = h
  Later-IsKept (asked {v = v} a before) k p h =
      (find_or_create-Grows a v).kept k p (Later-IsKept before k p h)
  Later-IsKept (outage reachable before) k p h = Later-IsKept before k p h

  Later-IsNumbered : {u v : Users} → IsNumbered u → Later u v → IsNumbered v
  Later-IsNumbered h at_once = h
  Later-IsNumbered h (asked {v = v} a before) =
      (find_or_create-Grows a v).numbered (Later-IsNumbered h before)
  Later-IsNumbered h (outage reachable before) =
      let n = Later-IsNumbered h before in record { below = n.below; single = n.single }

  -- the user of a login that succeeds, and the users that it leaves
  admit-user :
      (clock : ℕ → ℕ) (a : String) (u : Users) (l : LoginResult)
      → (admit lib cfg (user_repository lower) clock a u).0 ≡ ok l
      → let (r, v) = find_or_create lib cfg (user_repository lower) a u in
        (r ≡ ok l.user) × ((admit lib cfg (user_repository lower) clock a u).1 ≡ v)
  unfolding admit
  admit-user clock a u l h =
      elim (Result-cases (find_or_create lib cfg (user_repository lower) a u).0) [
        | inr (e, bad) ↦ let k = rw (bad, admit) at h in absurd cc
        | inl (p, good) ↦ elim (Result-cases (issue_token lib cfg (clock 4) (clock 5) p)) [
          | inr (e, bad) ↦ let k = rw (bad, admit) at (rw (good, admit) at h) in absurd cc
          | inl ((token, expires), issued) ↦
              let k = ok-injective (rw (issued, admit) at (rw (good, admit) at h)) in
              (good ∙ ap (λ m. ok m.user) k, rw (good, admit) (rw (issued, admit) refl))
        ]
      ]

  consume-user :
      (clock : ℕ → ℕ) (a : String) (st : AuthState Users) (l : LoginResult)
      → (consume lib cfg (user_repository lower) clock a st).0 ≡ ok l
      → let (r, v) = find_or_create lib cfg (user_repository lower) a st.users in
        (r ≡ ok l.user) × ((consume lib cfg (user_repository lower) clock a st).1.users ≡ v)
  unfolding consume
  consume-user clock a st l h = elim (Result-cases (delete_stored (clock 3) a st.challenges).0) [
    | inr (e, bad) ↦ let k = rw (bad, consume) at h in absurd cc
    | inl (done, good) ↦
        let (found, left) = admit-user clock a st.users l (rw (good, consume) at h) in
        (found, rw (good, consume) left)
  ]

  login-Grows :
      (prefix : String) (clock : ℕ → ℕ) (address signature : String) (st : AuthState Users)
      (l : LoginResult)
      → (login lib cfg (user_repository lower) prefix clock address signature st).0 ≡ ok l
      → Grows
          (lower (lib.checksum_hex address))
          st.users
          (ok l.user)
          (login lib cfg (user_repository lower) prefix clock address signature st).1.users
  login-Grows prefix clock address signature st l admitted =
      let a = lib.checksum_hex address in
      let (_, _, _, consumed, run) =
        login-Checked lib cfg (user_repository lower) prefix clock address signature st l
          admitted in
      let (found, left) = consume-user clock a st l consumed in
      let v = (find_or_create lib cfg (user_repository lower) a st.users).1 in
      subst (λ w. Grows (lower a) st.users (ok l.user) w) (sym (ap (λ o. o.1.users) run ∙ left))
        (subst (λ r. Grows (lower a) st.users r v) found (find_or_create-Grows a st.users))

  -- two wallets that have users
  same_id :
      (j k : String) (p q : User) (u : Users)
      → IsNumbered u
      → lookup j u.rows ≡ some p
      → lookup k u.rows ≡ some q
      → (p.id == q.id) ≡ (j == k)
  same_id j k p q u numbered g h = elim (Bool-cases (j == k)) [
    | inl same ↦
        let one = some-injective (sym g ∙ ap (λ i. lookup i u.rows) (same_key j k same) ∙ h) in
        ap (λ r. r.id == q.id) one ∙ ==_refl q.id ∙ sym same
    | inr other ↦ elim (Bool-cases (p.id == q.id)) [
      | inr differ ↦ differ ∙ sym other
      | inl equal ↦
          let one = numbered.single j k p q g h ((nat_eq.same_iff p.id q.id).0 equal) in
          absurd (let k = sym ((eq_iff j k).1 one) ∙ other in cc)
    ]
  ]

  -- A login, and one at any later time, while other logins come between and the database goes away and
  -- comes back, are for the same user id exactly if they are for the same wallet, whatever the case of
  -- its letters, when the ids of the table came from its sequence.
  pub login-accounts :
      (prefix : String) (clock clock' : ℕ → ℕ) (address address' signature signature' : String)
      (st st' : AuthState Users) (l m : LoginResult)
      → IsNumbered st.users
      → (login lib cfg (user_repository lower) prefix clock address signature st).0 ≡ ok l
      → Later
          (login lib cfg (user_repository lower) prefix clock address signature st).1.users
          st'.users
      → (login lib cfg (user_repository lower) prefix clock' address' signature' st').0 ≡ ok m
      → (l.user.id == m.user.id)
        ≡ (lower (lib.checksum_hex address) == lower (lib.checksum_hex address'))
  login-accounts prefix clock clock' address address' signature signature' st st' l m numbered once
        later again =
      let key = lower (lib.checksum_hex address) in
      let g = login-Grows prefix clock address signature st l once in
      let h = login-Grows prefix clock' address' signature' st' m again in
      same_id key (lower (lib.checksum_hex address')) l.user m.user
        (login lib cfg (user_repository lower) prefix clock' address' signature' st').1.users
        (h.numbered (Later-IsNumbered (g.numbered numbered) later))
        (h.kept key l.user (Later-IsKept later key l.user (g.found l.user refl)))
        (h.found m.user refl)
