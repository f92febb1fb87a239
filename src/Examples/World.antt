-- ===== src/Examples/World.antt =====
-- A Consul in memory, and codecs.
use aicw_node.Base.{
  ◌≡◌, ◌⊎◌, refl, ap, ◌∙◌, inl, inr, Bool, true, false, Option, none, some, [], ◌∷◌, arith,
  if◌then◌else◌, Str, str_eq, str_eq_iff, str_eq_refl, Dict, lookup, insert, delete, lookup-insert,
  lookup-delete, Option-cases, Bool-cases,
}
use aicw_node.Consul.{Consul, IsConsul, Codec, RoundTrips}
use aicw_node.Orchestrator.Lock.{InflightRecord, CooldownRecord}
use aicw_node.Orchestrator.Freeze.{FreezeRecord}
use aicw_node.Orchestrator.Sweeper.{trim_prefix}

pub record Cluster : Type 0 where
  pub kv : Dict Str
  pub holders : Dict Str

unfoldable pub lock_key : Str → Str → Str → Cluster → Option Bool × Cluster
lock_key k v n s =
    let taken : Cluster = record { kv = insert k v s.kv; holders = insert k n s.holders } in
    elim (lookup k s.holders) [
      | none ↦ (some true, taken)
      | some m ↦ if str_eq m n then (some true, taken) else (some false, s)
    ]

unfoldable pub listed : Str → Dict Str → Dict Str
listed prefix [] = []
listed prefix ((k, v) ∷ m) =
    let rest = listed prefix m in if str_eq (trim_prefix prefix k) k then rest else (k, v) ∷ rest

abbrev pub cluster : Consul
cluster = record {
  State = Cluster;
  get = λ k s. (some (lookup k s.kv), s);
  put = λ k v s. (true, record s { kv = insert k v s.kv });
  del = λ k s. (true, record { kv = delete k s.kv; holders = delete k s.holders });
  list = λ prefix s. (some (listed prefix s.kv), s);
  acquire = lock_key;
}

granted :
    (k v n : Str) (s : Cluster)
    → (lock_key k v n s).0 ≡ some true
    → (lookup k (lock_key k v n s).1.holders ≡ some n)
      × ((lookup k s.holders ≡ none) ⊎ (lookup k s.holders ≡ some n))
unfolding lock_key
granted k v n s h = elim (Option-cases (lookup k s.holders)) [
  | inl e ↦ rw (e, lock_key) (lookup-insert k k n s.holders ∙ rw (str_eq_refl k) refl, inl refl)
  | inr (m, e) ↦ elim (Bool-cases (str_eq m n)) [
    | inl q ↦
        rw (e, q, lock_key)
          (
            lookup-insert k k n s.holders ∙ rw (str_eq_refl k) refl,
            inr (ap some ((str_eq_iff m n).0 q)),
          )
    | inr q ↦ absurd (ground arith)
  ]
]

keeps :
    (k v n j m : Str) (s : Cluster)
    → lookup j s.holders ≡ some m
    → lookup j (lock_key k v n s).1.holders ≡ some m
unfolding lock_key
keeps k v n j m s h = elim (Option-cases (lookup k s.holders)) [
  | inl e ↦ ground (arith, lookup-insert j k n s.holders, str_eq_iff j k)
  | inr (o, e) ↦ ground (arith, lookup-insert j k n s.holders, str_eq_iff j k, str_eq_iff o n)
]

pub laws : IsConsul cluster
laws = record {
  stored = λ s k. lookup k s.kv;
  holder = λ s k. lookup k s.holders;
  get_stored = λ k s v h. cc;
  get_keeps = λ k j s. refl;
  put_stores = λ k v s h. lookup-insert k k v s.kv ∙ rw (str_eq_refl k) refl;
  put_others = λ k v j s n. ground (arith, lookup-insert j k v s.kv, str_eq_iff j k);
  del_removes = λ k s h. lookup-delete k k s.kv ∙ rw (str_eq_refl k) refl;
  del_others = λ k j s n. ground (arith, lookup-delete j k s.kv, str_eq_iff j k);
  acquire_granted = granted;
  acquire_keeps = keeps;
  del_frees = λ k s h. lookup-delete k k s.holders ∙ rw (str_eq_refl k) refl;
  del_keeps = λ k j s n. ground (arith, lookup-delete j k s.holders, str_eq_iff j k);
}

unfoldable pub parse_inflight : Str → Option InflightRecord
parse_inflight [] = none
parse_inflight (t ∷ s) = some (record { session_id = s; started_at = t; key_types_pending = [] })

abbrev pub inflight : Codec InflightRecord
inflight = record { encode = λ r. r.started_at ∷ r.session_id; decode = parse_inflight }

unfoldable pub parse_cooldown : Str → Option CooldownRecord
parse_cooldown (n ∷ k ∷ []) = some (record { next_eligible = n; fail_count = k })
parse_cooldown _ = none

abbrev pub cooldown : Codec CooldownRecord
cooldown = record { encode = λ r. r.next_eligible ∷ r.fail_count ∷ []; decode = parse_cooldown }

pub parses : RoundTrips cooldown
unfolding parse_cooldown
parses r = refl

abbrev pub freezes : Codec FreezeRecord
freezes = record { encode = λ r. r.wallet_id; decode = λ s. none }

abbrev pub empty : Cluster
empty = record { kv = []; holders = [] }
