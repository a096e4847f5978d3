-- ===== src/AgentSearch/Service/Leases.antt =====
-- How long a mount stays, and when the service ends by itself.
use package.text.Mathlib.TextEquality.{eq_iff}
use qscat.Prelude.{
  ℕ, ◌+◌, String, ◌≡◌, refl, ◌⊎◌, true, false, Option, none, some, [], ◌∷◌, is_nil, inl, inr, leb,
  ◌∙◌, ◌==◌, str_eq, arith, Bool-cases, some-injective, Option-cases,
}
use qscat.Prelude.Dict.{Dict, lookup, insert, lookup-insert}
use qscat.AgentSearch.Source.{owner, owner_eq}
use qscat.AgentSearch.Service.{
  Mount, Corpus, Service, lease, or_new, add_mount, register, drop_mount, unmount_corpus, each,
  unmount, unexpired, reap_corpora, reap, loop_head, end_attempts,
}
use qscat.AgentSearch.Service.Steps.{
  Step, registered, unmounted, reaped, looped, attempted, request_begun, request_ended,
  reap-corpora,
}

-- The mount of a client at a table.
abbrev pub mount_in : String → Option Corpus → Option Mount
mount_in client none = none
mount_in client (some c) = lookup client c.mounts

abbrev pub mount_of : String → String → Service → Option Mount
mount_of table client s = mount_in client (lookup table s.corpora)

lookup-unexpired :
    (now : ℕ) (client : String) (m : Mount) (d : Dict Mount)
    → lookup client d ≡ some m
    → leb m.expires now ≡ false
    → lookup client (unexpired now d) ≡ some m
unfolding unexpired
lookup-unexpired now client m [] h alive = cc
lookup-unexpired now client m ((k, n) ∷ d) h alive = ground (arith, lookup-unexpired now client m d)

lookup-drop_mount :
    (client other : String) (d : Dict Mount)
    → str_eq client other ≡ false
    → lookup other (drop_mount client d) ≡ lookup other d
unfolding drop_mount
lookup-drop_mount client other [] h = refl
lookup-drop_mount client other ((k, n) ∷ d) h =
    ground (
      arith,
      lookup-drop_mount client other d,
      eq_iff k client,
      eq_iff k other,
      eq_iff client other,
    )

nonempty_of_lookup :
    (client : String) (m : Mount) (d : Dict Mount) → lookup client d ≡ some m → is_nil d ≡ false
nonempty_of_lookup client m [] h = cc
nonempty_of_lookup client m (e ∷ d) h = refl

mount_in-reap_corpora :
    (now : ℕ) (table client : String) (m : Mount) (d : Dict Corpus)
    → mount_in client (lookup table d) ≡ some m
    → leb m.expires now ≡ false
    → mount_in client (lookup table (reap_corpora now d)) ≡ some m
unfolding reap_corpora
mount_in-reap_corpora now table client m [] h alive = cc
mount_in-reap_corpora now table client m ((k, c) ∷ d) h alive = elim (Bool-cases (str_eq k table)) [
  | inl same ↦
      let there : lookup client c.mounts ≡ some m = rw same at h in
      let kept : lookup client (unexpired now c.mounts) ≡ some m =
        lookup-unexpired now client m c.mounts there alive in
      rw (nonempty_of_lookup client m (unexpired now c.mounts) kept, same) kept
  | inr other ↦ ground (arith, mount_in-reap_corpora now table client m d)
]

mount_in-each :
    (client other table : String) (d : Dict Corpus)
    → str_eq client other ≡ false
    → mount_in other (lookup table (each (unmount_corpus client) d))
      ≡ mount_in other (lookup table d)
mount_in-each client other table [] h = refl
mount_in-each client other table ((k, c) ∷ d) h = elim (Bool-cases (str_eq k table)) [
  | inl same ↦ rw same (lookup-drop_mount client other c.mounts h)
  | inr next ↦ rw next (mount_in-each client other table d h)
]

-- The step neither unmounts the client nor reaps when the mount's lease is over.
abbrev pub Spares : {s t : Service} → String → Mount → Step s t → Type 0
Spares client m (unmounted other s) = str_eq other client ≡ false
Spares client m (reaped now s) = leb m.expires now ≡ false
Spares client m _ = Unit

-- The mount is the old one, or one that was renewed at `now`.
abbrev pub Renews : Mount → Mount → Type 0
Renews m m' = (m' ≡ m) ⊎ ((now : ℕ) × (m'.expires ≡ now + lease))

abbrev pub Mounted : String → String → Mount → Service → Type 0
Mounted table client m s = (m' : Mount) × (mount_of table client s ≡ some m') × Renews m m'

mount_in-insert :
    (table client k : String) (c : Corpus) (d : Dict Corpus) (m : Mount)
    → mount_in client (lookup table d) ≡ some m
    → (str_eq k table ≡ true → (m' : Mount) × (lookup client c.mounts ≡ some m') × Renews m m')
    → (m' : Mount) × (mount_in client (lookup table (insert k c d)) ≡ some m') × Renews m m'
mount_in-insert table client k c d m h inside = elim (Bool-cases (str_eq k table)) [
  | inl same ↦
      let (m', found, new) = inside same in (m', rw (lookup-insert k table c d, same) found, new)
  | inr other ↦ (m, rw (lookup-insert k table c d, other) h, inl refl)
]

mounted_there :
    (table client k : String) (c : Corpus) (d : Dict Corpus) (m : Mount)
    → lookup k d ≡ some c
    → mount_in client (lookup table d) ≡ some m
    → str_eq k table ≡ true
    → lookup client c.mounts ≡ some m
mounted_there table client k c d m found h same =
    let e : k ≡ table = (eq_iff k table).0 same in
    let there : lookup table d ≡ some c = rw e at found in rw there at h

mounts-add_mount :
    (now : ℕ) (client : String) (n : Mount) (c : Corpus)
    → (add_mount now client n c).mounts
      ≡ insert client (record n { expires = now + lease }) c.mounts
unfolding add_mount
mounts-add_mount now client n c = ground arith

-- A registration writes its own client's mount and no other.
add_mount-Renews :
    (now : ℕ) (client other : String) (n m : Mount) (c : Corpus)
    → lookup client c.mounts ≡ some m
    → (m' : Mount) × (lookup client (add_mount now other n c).mounts ≡ some m') × Renews m m'
add_mount-Renews now client other n m c h =
    let renewed : Mount = record n { expires = now + lease } in
    elim (Bool-cases (str_eq other client)) [
      | inl same ↦ (
        renewed,
        rw (mounts-add_mount now other n c, lookup-insert other client renewed c.mounts, same) refl,
        inr (now, refl),
      )
      | inr apart ↦ (
        m,
        rw (mounts-add_mount now other n c, lookup-insert other client renewed c.mounts, apart) h,
        inl refl,
      )
    ]

Mounted-register :
    (table client other : String) (now : ℕ) (n m : Mount) (s t : Service)
    → register now other n s ≡ some t
    → mount_of table client s ≡ some m
    → Mounted table client m t
unfolding register
Mounted-register table client other now n m s t h found =
    let c = or_new n.table (owner n.source) (lookup n.table s.corpora) in
    elim (Bool-cases (owner_eq c.owner (owner n.source))) [
      | inr apart ↦ absurd (rw apart at h)
      | inl same ↦ rw (← some-injective (rw same at h)) (
          mount_in-insert table client n.table (add_mount now other n c) s.corpora m found
            (λ e. add_mount-Renews now client other n m c (old e)))
    ]
  where
    absurd : none ≡ some t → Mounted table client m t
    absurd e = cc

    old :
        str_eq n.table table ≡ true
        → lookup client (or_new n.table (owner n.source) (lookup n.table s.corpora)).mounts ≡ some m
    old e =
        let same : n.table ≡ table = (eq_iff n.table table).0 e in
        elim (Option-cases (lookup table s.corpora)) [
          | inl gone ↦ ground (arith)
          | inr (c, there) ↦ rw (same, there) (rw there at found)
        ]

-- A mount stays where it is, with its lease or a renewed one, over every step that is neither an
-- unmount of its client nor a reap at or after the end of its lease.
pub Step-Mounted :
    {s t : Service} (table client : String) (m : Mount) (st : Step s t)
    → mount_of table client s ≡ some m
    → Spares client m st
    → Mounted table client m t
unfolding unmount loop_head end_attempts
Step-Mounted table client m (registered now other n s t h) found spared =
    Mounted-register table client other now n m s t h found
Step-Mounted table client m (unmounted other s) found spared =
    (m, mount_in-each other client table s.corpora spared ∙ found, inl refl)
Step-Mounted table client m (reaped now s) found spared = (
  m,
  rw (reap-corpora now s) (mount_in-reap_corpora now table client m s.corpora found spared),
  inl refl,
)
Step-Mounted table client m (looped k c s h p) found spared =
    mount_in-insert table client k (loop_head c) s.corpora m found
      (λ e. (m, head_mounts (mounted_there table client k c s.corpora m h found e), inl refl))
  where
    head_mounts : lookup client c.mounts ≡ some m → lookup client (loop_head c).mounts ≡ some m
    head_mounts q = ground arith
Step-Mounted table client m (attempted k c error s h p) found spared =
    mount_in-insert table client k (end_attempts error c) s.corpora m found
      (λ e. (m, mounted_there table client k c s.corpora m h found e, inl refl))
Step-Mounted table client m (request_begun s) found spared = (m, found, inl refl)
Step-Mounted table client m (request_ended now s) found spared = (m, found, inl refl)

-- `reap` does not stop the service while a mount's lease runs or a request is answered.
pub reap_keeps_running :
    (now : ℕ) (s : Service)
    → s.stop ≡ false
    → ((table : String) × (client : String) × (m : Mount) × (mount_of table client s ≡ some m)
        × (leb m.expires now ≡ false))
      ⊎ ((s.active_requests == 0) ≡ false)
    → (reap now s).stop ≡ false
unfolding reap
reap_keeps_running now s h (inr busy) = ground arith
reap_keeps_running now s h (inl (table, client, m, found, alive)) =
    let kept : is_nil (reap_corpora now s.corpora) ≡ false =
      nonempty_corpora (reap_corpora now s.corpora)
        (mount_in-reap_corpora now table client m s.corpora found alive) in
    rw kept h
  where
    nonempty_corpora :
        (d : Dict Corpus) → mount_in client (lookup table d) ≡ some m → is_nil d ≡ false
    nonempty_corpora [] e = cc
    nonempty_corpora (x ∷ d) e = refl
