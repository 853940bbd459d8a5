-- ===== src/Auth/RedisStore/Entries.antt =====
-- Entries of Redis and the challenges that they hold.
use meme_launchpad_backend.Common.{
  ℕ, ◌+◌, ◌*◌, ◌/◌, ◌<◌, ◌≤◌, ◌≡◌, refl, sym, ◌∙◌, ap, String, true, false, Option, none, some,
  some-injective, [], ltb, ◌==◌, ==_refl, eq_iff, nat_eq, string_eq, arith, Bool-cases, ◌⊎◌, inl,
  inr, if◌then◌else◌,
}
use meme_launchpad_backend.Go.Strings.{◌<>◌, cut_prefix, cut_prefix-append}
use meme_launchpad_backend.Postgres.Table.{
  Table, lookup, upsert, delete_row, lookup-delete_row, lookup-put,
}
use meme_launchpad_backend.Postgres.Transaction.{Result, ok}
use meme_launchpad_backend.Auth.{SiweChallenge, Challenges, save_challenge}
use meme_launchpad_backend.Auth.RedisStore.{RedisStore, millisecond, end_of}

-- the challenge of an entry, which may end a millisecond before it
pub data Matches (unmarshal : String → Result SiweChallenge)
    : Option SiweChallenge → Option (String × Option ℕ) → Type 0 where
  absent : Matches unmarshal none none
  present :
      (c : SiweChallenge) (text : String) (ends : ℕ)
      → unmarshal text ≡ ok c
      → c.expiration_time < ends + millisecond
      → Matches unmarshal (some c) (some (text, some ends))

-- the two forms of a match
pub Matches-cases :
    {unmarshal : String → Result SiweChallenge} {o : Option SiweChallenge}
    {p : Option (String × Option ℕ)}
    → Matches unmarshal o p
    → ((o ≡ none) × (p ≡ none))
      ⊎ ((c : SiweChallenge) × (text : String) × (ends : ℕ) × (o ≡ some c)
          × (p ≡ some (text, some ends))
          × (unmarshal text ≡ ok c)
          × (c.expiration_time < ends + millisecond))
Matches-cases absent = inl (refl, refl)
Matches-cases (present c text ends back bound) = inr (c, text, ends, refl, refl, back, bound)

-- a test that a millisecond of time passes
pub live :
    (now ends expires : ℕ)
    → now + millisecond ≤ expires
    → expires < ends + millisecond
    → ltb now ends ≡ true
live now ends expires h k = ground arith

pub still : (now expires : ℕ) → now + millisecond ≤ expires → ltb expires now ≡ false
still now expires h = ground arith

-- a prefix keeps keys apart
pub prefix-injective : (p a b : String) → ((p <> a) == (p <> b)) ≡ (a == b)
prefix-injective p a b = elim (Bool-cases (a == b)) [
  | inl same ↦ rw ((eq_iff a b).0 same) (==_refl (p <> b) ∙ sym (==_refl b))
  | inr other ↦ elim (Bool-cases ((p <> a) == (p <> b))) [
    | inr differ ↦ differ ∙ sym other
    | inl equal ↦
        let one : a ≡ b = some-injective (
          sym (cut_prefix-append p a)
          ∙ ap (cut_prefix p) ((eq_iff (p <> a) (p <> b)).0 equal)
          ∙ cut_prefix-append p b) in
        absurd (let k = sym ((eq_iff a b).1 one) ∙ other in cc)
  ]
]

-- the end of an entry for a positive time to live
abbrev pub end_at : ℕ → ℕ → ℕ
end_at now ttl =
    if ltb ttl millisecond then now + millisecond else now + ttl / millisecond * millisecond

pub end_of-end_at :
    (now ttl other : ℕ)
    → 0 < ttl
    → end_of now (if ttl == 0 then other else ttl) ≡ some (end_at now ttl)
unfolding end_of
end_of-end_at now ttl other some_ = ground arith

pub ends-bound :
    (now ttl expires : ℕ) → expires ≤ now + ttl → expires < end_at now ttl + millisecond
ends-bound now ttl expires h = ground arith

-- a store of entries that answers
abbrev pub calm : Table String (String × Option ℕ) → RedisStore
calm es = record { entries = es; faults = [] }

module _ (prefix : String) (unmarshal : String → Result SiweChallenge) where
  -- an entry for each challenge
  abbrev pub Mirrors : Challenges → Table String (String × Option ℕ) → Type 0
  Mirrors t es = (a : String) → Matches unmarshal (lookup a t) (lookup (prefix <> a) es)

  pub put-kept :
      (now : ℕ) (a : String) (c : SiweChallenge) (ttl : ℕ) (t : Challenges)
      (es : Table String (String × Option ℕ)) (text : String)
      → Mirrors t es
      → unmarshal text ≡ ok c
      → c.expiration_time ≤ now + ttl
      → Mirrors (save_challenge a c t) (
          upsert
            (prefix <> a)
            (text, some (end_at now ttl))
            (λ _. (text, some (end_at now ttl)))
            es)
  unfolding save_challenge
  put-kept now a c ttl t es text mirrors back long b =
      let entry : String × Option ℕ = (text, some (end_at now ttl)) in
      rw (lookup-put a b c t) (
        rw (lookup-put (prefix <> a) (prefix <> b) entry es) (
          rw (prefix-injective prefix a b) (elim (Bool-cases (a == b)) [
            | inl same ↦
                rw same
                  (present c text (end_at now ttl) back (ends-bound now ttl c.expiration_time long))
            | inr other ↦ rw other (mirrors b)
          ])))

  pub drop-kept :
      (a : String) (t : Challenges) (es : Table String (String × Option ℕ))
      → Mirrors t es
      → Mirrors (delete_row a t) (delete_row (prefix <> a) es)
  drop-kept a t es mirrors b = rw (lookup-delete_row a b t) (
      rw (lookup-delete_row (prefix <> a) (prefix <> b) es) (
        rw (prefix-injective prefix a b) (elim (Bool-cases (a == b)) [
          | inl same ↦ rw same absent
          | inr other ↦ rw other (mirrors b)
        ])))
