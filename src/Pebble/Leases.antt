-- ===== src/Pebble/Leases.antt =====
-- store/pebble/pebble.go, the leases: TryAcquireOrRenew and Release, under one mutex. A stored lease
-- may be unreadable, which counts as vacant. The time is read within the call; 0 is the zero time
-- that tells the caller that another holder has the lease.
use arcade.Prelude.{
  ℕ, ◌+◌, ◌<◌, ◌≡◌, ◌≢◌, ◌⊎◌, refl, sym, ap, ◌∙◌, inl, inr, String, Bool, true, false, not, ◌&&◌,
  List, [], ◌∷◌, Option, none, some, arith, ◌==◌, string_eq, if◌then◌else◌, ltb, All, Bool-cases,
  eq_cases, beq_ne, lt→ltb,
}
use arcade.Prelude.Map.{
  Map, lookup, insert, delete, lookup-insert_self, lookup-insert_ne, lookup-delete_ne,
}
use arcade.Pebble.Reorg.{healthy}
use arcade.Pebble.Ops.{Io, context_cancelled, read_error, write_error, Outcome, ok, err}

pub record StoredLease : Type 0 where
  pub holder : String
  pub expires : ℕ

-- What is stored under a lease's name, if anything: `none` is a value that does not parse.
abbrev pub Leases : Type 0
Leases = Map String (Option StoredLease)

-- Another holder has it, and it has not expired.
unfoldable pub taken_by_other : String → ℕ → Option (Option StoredLease) → Bool
taken_by_other holder now none = false
taken_by_other holder now (some none) = false
taken_by_other holder now (some (some cur)) = not (cur.holder == holder) && ltb now cur.expires

unfoldable pub write_lease : Io → String → String → ℕ → Leases → Leases × Outcome ℕ
write_lease io name holder expires s =
    if io.write_fails
    then (s, err write_error)
    else (insert name (some (record { holder = holder; expires = expires })) s, ok expires)

unfoldable pub try_acquire_or_renew : Io → ℕ → String → String → ℕ → Leases → Leases × Outcome ℕ
try_acquire_or_renew io now name holder ttl s =
    if io.cancelled
    then (s, err context_cancelled)
    else if io.read_fails
    then (s, err read_error)
    else if taken_by_other holder now (lookup name s)
    then (s, ok 0)
    else write_lease io name holder (now + ttl) s

unfoldable pub delete_lease : Io → String → Leases → Leases × Outcome {0} Unit
delete_lease io name s = if io.write_fails then (s, err write_error) else (delete name s, ok tt)

unfoldable pub release_found :
    Io → String → String → Option (Option StoredLease) → Leases → Leases × Outcome {0} Unit
release_found io name holder none s = (s, ok tt)
release_found io name holder (some none) s = delete_lease io name s
release_found io name holder (some (some cur)) s =
    if cur.holder == holder then delete_lease io name s else (s, ok tt)

unfoldable pub release : Io → String → String → Leases → Leases × Outcome {0} Unit
release io name holder s =
    if io.cancelled
    then (s, err context_cancelled)
    else if io.read_fails
    then (s, err read_error)
    else release_found io name holder (lookup name s) s

pub data Call : Type 0 where
  acquires : Io → ℕ → String → String → ℕ → Call
  releases : Io → String → String → Call

unfoldable pub call : Call → Leases → Leases
call (acquires io now name holder ttl) s = (try_acquire_or_renew io now name holder ttl s).0
call (releases io name holder) s = (release io name holder s).0

unfoldable pub call_all : List Call → Leases → Leases
call_all [] s = s
call_all (c ∷ calls) s = call_all calls (call c s)

-- A call on another lease, or by another holder before the lease expires.
abbrev pub Foreign : String → String → ℕ → Call → Type 0
Foreign name holder expires (acquires io now n h ttl) =
    (n ≢ name) ⊎ ((h ≢ holder) × (now < expires))
Foreign name holder expires (releases io n h) = (n ≢ name) ⊎ (h ≢ holder)

other_takes :
    (holder h : String) (now expires : ℕ)
    → (holder == h) ≡ false
    → ltb now expires ≡ true
    → taken_by_other h now (some (some (record { holder = holder; expires = expires }))) ≡ true
unfolding taken_by_other
other_takes holder h now expires f t = ground (arith, f, t)

module _ (name holder : String) (expires : ℕ) where
  abbrev Held : Leases → Type 0
  Held s = lookup name s ≡ some (some (record { holder = holder; expires = expires }))

  acquire-elsewhere :
      (io : Io) (now : ℕ) (n h : String) (ttl : ℕ) (s : Leases)
      → n ≢ name
      → lookup name (try_acquire_or_renew io now n h ttl s).0 ≡ lookup name s
  unfolding try_acquire_or_renew write_lease
  acquire-elsewhere io now n h ttl s f =
      ground
        (arith, lookup-insert_ne n name (some (record { holder = h; expires = now + ttl })) s f)

  -- While the lease is held, another holder gets nothing and changes nothing.
  acquire-taken :
      (io : Io) (now : ℕ) (h : String) (ttl : ℕ) (s : Leases)
      → Held s
      → h ≢ holder
      → now < expires
      → (try_acquire_or_renew io now name h ttl s).0 ≡ s
  unfolding try_acquire_or_renew
  acquire-taken io now h ttl s v f t = elim (Bool-cases (taken_by_other h now (lookup name s))) [
    | inl b ↦ rw b (ground arith)
    | inr b ↦ absurd (ground (arith, b, taken))
  ]
    where
      taken : taken_by_other h now (lookup name s) ≡ true
      taken =
          ap (taken_by_other h now) v
          ∙ other_takes holder h now expires (beq_ne holder h (λ q. f (sym q)))
              (lt→ltb now expires t)

  release_found-elsewhere :
      (io : Io) (n h : String) (o : Option (Option StoredLease)) (s : Leases)
      → n ≢ name
      → lookup name (release_found io n h o s).0 ≡ lookup name s
  unfolding release_found delete_lease
  release_found-elsewhere io n h none s f = refl
  release_found-elsewhere io n h (some none) s f = ground (arith, lookup-delete_ne n name s f)
  release_found-elsewhere io n h (some (some cur)) s f = ground (arith, lookup-delete_ne n name s f)

  release-elsewhere :
      (io : Io) (n h : String) (s : Leases)
      → n ≢ name
      → lookup name (release io n h s).0 ≡ lookup name s
  unfolding release
  release-elsewhere io n h s f = ground (arith, release_found-elsewhere io n h (lookup n s) s f)

  release-taken :
      (io : Io) (h : String) (s : Leases) → Held s → h ≢ holder → (release io name h s).0 ≡ s
  unfolding release release_found
  release-taken io h s v f =
      ground (arith, ap (λ o. (release_found io name h o s).0) v, beq_ne holder h (λ q. f (sym q)))

  call-Held : (c : Call) (s : Leases) → Foreign name holder expires c → Held s → Held (call c s)
  unfolding call
  call-Held (acquires io now n h ttl) s (inl f) v = acquire-elsewhere io now n h ttl s f ∙ v
  call-Held (acquires io now n h ttl) s (inr f) v = elim (eq_cases n name) [
    | inr (b, x) ↦ acquire-elsewhere io now n h ttl s x ∙ v
    | inl (b, x) ↦
        ap (λ z. lookup name (try_acquire_or_renew io now z h ttl s).0) x
        ∙ ap (lookup name) (acquire-taken io now h ttl s v f.0 f.1)
        ∙ v
  ]
  call-Held (releases io n h) s (inl f) v = release-elsewhere io n h s f ∙ v
  call-Held (releases io n h) s (inr f) v = elim (eq_cases n name) [
    | inr (b, x) ↦ release-elsewhere io n h s x ∙ v
    | inl (b, x) ↦
        ap (λ z. lookup name (release io z h s).0) x
        ∙ ap (lookup name) (release-taken io h s v f)
        ∙ v
  ]

  call_all-Held :
      (calls : List Call) (s : Leases)
      → All (Foreign name holder expires) calls
      → Held s
      → Held (call_all calls s)
  unfolding call_all
  call_all-Held [] s f v = v
  call_all-Held (c ∷ calls) s f v = call_all-Held calls (call c s) f.1 (call-Held c s f.0 v)

-- A successful call leaves the lease with the holder.
acquired :
    (io : Io) (now : ℕ) (name holder : String) (ttl : ℕ) (s : Leases)
    → 0 < now + ttl
    → (try_acquire_or_renew io now name holder ttl s).1 ≡ ok (now + ttl)
    → Held name holder (now + ttl) (try_acquire_or_renew io now name holder ttl s).0
unfolding try_acquire_or_renew write_lease
acquired io now name holder ttl s p got = ground (
  arith,
  got,
  p,
  lookup-insert_self name (some (record { holder = holder; expires = now + ttl })) s,
)

answered :
    (name holder other : String) (expires later ttl : ℕ) (s : Leases)
    → other ≢ holder
    → Held name holder expires s
    → try_acquire_or_renew healthy later name other ttl s ≡ (
        if ltb later expires then (s, ok 0) else (
          insert name (some (record { holder = other; expires = later + ttl })) s,
          ok (later + ttl),
        ))
unfolding try_acquire_or_renew write_lease taken_by_other
answered name holder other expires later ttl s f v =
    ap
      (λ o.
        if taken_by_other other later o
        then (s, ok 0)
        else write_lease healthy name other (later + ttl) s)
      v
    ∙ ground (arith, beq_ne holder other (λ q. f (sym q)))

-- A lease that a holder has acquired or renewed, after any calls that are on other leases, or are
-- other holders' attempts to acquire it before it expires or to release it: another holder that asks
-- for it, where nothing fails, is refused and leaves it as it is while it has not expired, and gets it
-- once it has.
pub lease_exclusive :
    (name holder other : String) (io : Io) (now ttl later ttl' : ℕ) (s : Leases) (calls : List Call)
    → other ≢ holder
    → 0 < now + ttl
    → (try_acquire_or_renew io now name holder ttl s).1 ≡ ok (now + ttl)
    → All (Foreign name holder (now + ttl)) calls
    → let s' = call_all calls (try_acquire_or_renew io now name holder ttl s).0 in
      try_acquire_or_renew healthy later name other ttl' s' ≡ (
        if ltb later (now + ttl) then (s', ok 0) else (
          insert name (some (record { holder = other; expires = later + ttl' })) s',
          ok (later + ttl'),
        ))
lease_exclusive name holder other io now ttl later ttl' s calls f p got foreign =
    answered name holder other (now + ttl) later ttl'
      (call_all calls (try_acquire_or_renew io now name holder ttl s).0) f
      (call_all-Held name holder (now + ttl) calls (try_acquire_or_renew io now name holder ttl s).0
        foreign (acquired io now name holder ttl s p got))
