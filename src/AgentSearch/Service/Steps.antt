-- ===== src/AgentSearch/Service/Steps.antt =====
-- The service as a step relation: the event loop chooses which operation comes next.
use qscat.Prelude.{
  ℕ, ◌+◌, String, ◌≡◌, refl, Bool, true, false, not, ◌&&◌, Option, none, some, [], ◌∷◌, is_nil, inl,
  inr, leb, str_eq, arith, Bool-cases, some-injective, Option-cases,
}
use qscat.Prelude.Dict.{Dict, lookup, insert, Values, Values-insert, Values-lookup}
use qscat.AgentSearch.Source.{Owner, owner, owner_eq}
use qscat.AgentSearch.Service.{
  Mount, Task, at_head, indexing, waiting, Corpus, Service, new_service, lease, has_stopped, or_new,
  add_mount, register, drop_mount, unmount_corpus, each, unmount, unexpired, expire, is_finished,
  reap_corpora, reap, loop_head, end_attempts, begin_request, end_request,
}

abbrev pub at_loop_head : Task → Bool
at_loop_head at_head = true
at_loop_head waiting = true
at_loop_head _ = false

abbrev pub in_indexer : Task → Bool
in_indexer indexing = true
in_indexer _ = false

-- The corpus of a table, changed by its maintainer.
abbrev pub maintained : String → Corpus → Service → Service
maintained table c s = record s { corpora = insert table c s.corpora }

pub data Step : Service → Service → Type 0 where
  registered :
      (now : ℕ) (client : String) (m : Mount) (s t : Service)
      → register now client m s ≡ some t
      → Step s t
  unmounted : (client : String) (s : Service) → Step s (unmount client s)
  reaped : (now : ℕ) (s : Service) → Step s (reap now s)
  -- Also when `wake` is set or the interval is over.
  looped :
      (table : String) (c : Corpus) (s : Service)
      → lookup table s.corpora ≡ some c
      → at_loop_head c.task ≡ true
      → Step s (maintained table (loop_head c) s)
  attempted :
      (table : String) (c : Corpus) (error : Option String) (s : Service)
      → lookup table s.corpora ≡ some c
      → in_indexer c.task ≡ true
      → Step s (maintained table (end_attempts error c) s)
  request_begun : (s : Service) → Step s (begin_request s)
  request_ended : (now : ℕ) (s : Service) → Step s (end_request now s)

pub data Reach (s : Service) : Service → Type 0 where
  here : Reach s s
  next : {t u : Service} → Reach s t → Step t u → Reach s u

abbrev pub OwnedBy : Owner → Dict Mount → Type 0
OwnedBy o = Values (λ (m : Mount). owner_eq o (owner m.source) ≡ true)

-- A corpus has a task; while it has mounts the task runs; and all its mounts are of its owner.
pub record IsServed (c : Corpus) : Type 0 where
  pub started : (not (is_finished c.task) && has_stopped c.task) ≡ false
  pub running : (not (is_nil c.mounts) && has_stopped c.task) ≡ false
  pub owned : OwnedBy c.owner c.mounts

abbrev pub IsSound : Service → Type 0
IsSound s = Values IsServed s.corpora

drop_mount-OwnedBy :
    (o : Owner) (client : String) (d : Dict Mount) → OwnedBy o d → OwnedBy o (drop_mount client d)
unfolding drop_mount
drop_mount-OwnedBy o client [] h = tt
drop_mount-OwnedBy o client ((k, m) ∷ d) (p, h) = elim (Bool-cases (str_eq k client)) [
  | inl same ↦ rw same (drop_mount-OwnedBy o client d h)
  | inr other ↦ rw other (p, drop_mount-OwnedBy o client d h)
]

unexpired-OwnedBy :
    (o : Owner) (now : ℕ) (d : Dict Mount) → OwnedBy o d → OwnedBy o (unexpired now d)
unfolding unexpired
unexpired-OwnedBy o now [] h = tt
unexpired-OwnedBy o now ((k, m) ∷ d) (p, h) = elim (Bool-cases (leb m.expires now)) [
  | inl over ↦ rw over (unexpired-OwnedBy o now d h)
  | inr alive ↦ rw alive (p, unexpired-OwnedBy o now d h)
]

drop_mount-is_nil :
    (client : String) (d : Dict Mount) → is_nil d ≡ true → is_nil (drop_mount client d) ≡ true
unfolding drop_mount
drop_mount-is_nil client [] h = refl
drop_mount-is_nil client (e ∷ d) h = cc

unexpired-is_nil : (now : ℕ) (d : Dict Mount) → is_nil d ≡ true → is_nil (unexpired now d) ≡ true
unfolding unexpired
unexpired-is_nil now [] h = refl
unexpired-is_nil now (e ∷ d) h = cc

unmount_corpus-IsServed :
    (client : String) (c : Corpus) → IsServed c → IsServed (unmount_corpus client c)
unmount_corpus-IsServed client c h = record {
  started = h.started;
  running = ground (arith, h.running, drop_mount-is_nil client c.mounts);
  owned = drop_mount-OwnedBy c.owner client c.mounts h.owned;
}

expire-IsServed : (now : ℕ) (c : Corpus) → IsServed c → IsServed (expire now c)
expire-IsServed now c h = record {
  started = h.started;
  running = ground (arith, h.running, unexpired-is_nil now c.mounts);
  owned = unexpired-OwnedBy c.owner now c.mounts h.owned;
}

each-IsServed :
    (f : Corpus → Corpus)
    → ((c : Corpus) → IsServed c → IsServed (f c))
    → (d : Dict Corpus) → Values IsServed d
    → Values IsServed (each f d)
each-IsServed f keep [] h = tt
each-IsServed f keep ((k, c) ∷ d) (p, h) = (keep c p, each-IsServed f keep d h)

reap_corpora-IsServed :
    (now : ℕ) (d : Dict Corpus) → Values IsServed d → Values IsServed (reap_corpora now d)
unfolding reap_corpora
reap_corpora-IsServed now [] h = tt
reap_corpora-IsServed now ((k, c) ∷ d) (p, h) =
    elim (Bool-cases (is_nil (unexpired now c.mounts) && is_finished c.task)) [
      | inl over ↦ rw over (reap_corpora-IsServed now d h)
      | inr kept ↦ rw kept (expire-IsServed now c p, reap_corpora-IsServed now d h)
    ]

-- Whatever `reap` does with `stop`, its corpora are the ones that the loop kept.
pub reap-corpora : (now : ℕ) (s : Service) → (reap now s).corpora ≡ reap_corpora now s.corpora
unfolding reap
reap-corpora now s = ground arith

loop_head-IsServed : (c : Corpus) → IsServed c → IsServed (loop_head c)
unfolding loop_head
loop_head-IsServed c h = elim (Bool-cases (is_nil c.mounts)) [
  | inl empty ↦ rw empty (record { started = refl; running = rw empty refl; owned = h.owned })
  | inr some_left ↦
      rw some_left (record { started = refl; running = rw some_left refl; owned = h.owned })
]

end_attempts-IsServed :
    (error : Option String) (c : Corpus) → IsServed c → IsServed (end_attempts error c)
unfolding end_attempts
end_attempts-IsServed error c h = record {
  started = ground arith;
  running = ground arith;
  owned = h.owned;
}

insert-OwnedBy :
    (o : Owner) (now : ℕ) (client : String) (m : Mount) (d : Dict Mount)
    → owner_eq o (owner m.source) ≡ true
    → OwnedBy o d
    → OwnedBy o (insert client (record m { expires = now + lease }) d)
insert-OwnedBy o now client m d p h =
    Values-insert (λ (n : Mount). owner_eq o (owner n.source) ≡ true) client
      (record m { expires = now + lease }) d p h

add_mount-IsServed :
    (now : ℕ) (client : String) (m : Mount) (c : Corpus)
    → OwnedBy c.owner c.mounts
    → owner_eq c.owner (owner m.source) ≡ true
    → IsServed (add_mount now client m c)
unfolding add_mount
add_mount-IsServed now client m c h p = elim (Bool-cases (has_stopped c.task)) [
  | inl over ↦ rw over (record {
    started = refl;
    running = ground arith;
    owned = insert-OwnedBy c.owner now client m c.mounts p h;
  })
  | inr runs ↦ rw runs (record {
    started = rw runs (ground arith);
    running = rw runs (ground arith);
    owned = insert-OwnedBy c.owner now client m c.mounts p h;
  })
]

or_new-OwnedBy :
    (table : String) (o : Owner) (d : Dict Corpus)
    → Values IsServed d
    → let c = or_new table o (lookup table d) in OwnedBy c.owner c.mounts
or_new-OwnedBy table o d h = elim (Option-cases (lookup table d)) [
  | inl gone ↦ rw gone tt
  | inr (c, found) ↦ rw found ((Values-lookup IsServed table c d found h).owned)
]

register-IsSound :
    (now : ℕ) (client : String) (m : Mount) (s t : Service)
    → register now client m s ≡ some t
    → IsSound s
    → IsSound t
unfolding register
register-IsSound now client m s t h sound =
    let c = or_new m.table (owner m.source) (lookup m.table s.corpora) in
    elim (Bool-cases (owner_eq c.owner (owner m.source))) [
      | inr other ↦ absurd (rw other at h)
      | inl same ↦ rw (← some-injective (rw same at h)) (
          Values-insert IsServed m.table (add_mount now client m c) s.corpora
            (add_mount-IsServed now client m c
              (or_new-OwnedBy m.table (owner m.source) s.corpora sound) same)
            sound)
    ]
  where
    absurd : none ≡ some t → IsSound t
    absurd e = cc

Step-IsSound : {s t : Service} → Step s t → IsSound s → IsSound t
unfolding unmount
Step-IsSound (registered now client m s t h) sound = register-IsSound now client m s t h sound
Step-IsSound (unmounted client s) sound =
    each-IsServed (unmount_corpus client) (unmount_corpus-IsServed client) s.corpora sound
Step-IsSound (reaped now s) sound =
    rw (reap-corpora now s) (reap_corpora-IsServed now s.corpora sound)
Step-IsSound (looped table c s h p) sound =
    Values-insert IsServed table (loop_head c) s.corpora
      (loop_head-IsServed c (Values-lookup IsServed table c s.corpora h sound)) sound
Step-IsSound (attempted table c error s h p) sound =
    Values-insert IsServed table (end_attempts error c) s.corpora
      (end_attempts-IsServed error c (Values-lookup IsServed table c s.corpora h sound)) sound
Step-IsSound (request_begun s) sound = sound
Step-IsSound (request_ended now s) sound = sound

-- In every state that a new service reaches, by any order of registrations, unmounts, reaps, turns of
-- the maintainers and requests, each corpus has a task, a corpus with mounts has one that is not
-- finished, and every mount of a corpus is of the corpus's owner.
pub Reach-IsSound :
    (idle_timeout now : ℕ) (s : Service) → Reach (new_service idle_timeout now) s → IsSound s
Reach-IsSound idle_timeout now s here = tt
Reach-IsSound idle_timeout now s (next r st) = Step-IsSound st (Reach-IsSound idle_timeout now _ r)
