-- ===== src/Mpc/Rebroadcast.antt =====
-- pkg/mpc/dynamic_registry.go: the loop that broadcasts the public key until the mesh is complete.
use aicw_node.Base.{
  ℕ, ◌+◌, ◌≡◌, refl, inl, inr, Bool, true, false, ◌&&◌, Option, none, some, List, [], ◌∷◌, arith,
  if◌then◌else◌, ltb, or_zero, defined, Option-cases, Bool-cases,
}
use aicw_node.Identity.{Store}
use aicw_node.Mpc.Session.{Session, is_key_exchange_complete}

-- ECDHGracePeriod, in nanoseconds.
abbrev pub grace_period : ℕ
grace_period = 30_000_000_000

pub record Grace : Type 0 where
  pub active : Bool
  pub deadline : ℕ

-- What a tick meets: the two readings of the clock, and the mesh.
pub record Tick : Type 0 where
  pub now : ℕ
  pub later : ℕ
  pub session : Session
  pub store : Store

abbrev pub is_complete : Tick → Bool
is_complete t = is_key_exchange_complete t.session t.store

started : ℕ → Grace → Grace
started now g = if g.active then g else record { active = true; deadline = now + grace_period }

-- The grace after a tick that goes on.
unfoldable pub next_grace : Tick → Grace → Grace
unfolding started
next_grace t g = if is_complete t then started t.now g else record g { active = false }

-- Whether the loop ends at a tick; otherwise it broadcasts.
unfoldable pub ends : Tick → Grace → Bool
ends t g = is_complete t && ltb (next_grace t g).deadline t.later

-- The grace after ticks that went on, the last of them first.
unfoldable pub grace_after : List Tick → Grace
grace_after [] = record { active = false; deadline = 0 }
grace_after (t ∷ ts) = next_grace t (grace_after ts)

-- When the mesh became complete: at the first of the last ticks that all found it so.
abbrev pub complete_since : List Tick → Option ℕ
complete_since [] = none
complete_since (t ∷ ts) = if is_complete t then some (or_zero t.now (complete_since ts)) else none

grace_after_lem :
    (ts : List Tick)
    → ((grace_after ts).active ≡ defined (complete_since ts))
      × ((n : ℕ) → complete_since ts ≡ some n → (grace_after ts).deadline ≡ n + grace_period)
unfolding grace_after next_grace started
grace_after_lem [] = (refl, λ n h. absurd (cc))
grace_after_lem (t ∷ ts) = elim (Option-cases (complete_since ts)) [
  | inl e ↦ (ground (arith, grace_after_lem ts), λ n h. ground (arith, (grace_after_lem ts).0))
  | inr (m, e) ↦ (
    ground (arith, grace_after_lem ts),
    λ n h. ground (arith, (grace_after_lem ts).0, (grace_after_lem ts).1 m),
  )
]

-- After ticks that went on, the loop ends at a tick exactly if that tick and those before it have
-- found the mesh complete for more than the grace period: no tick at which a key is missing ends it,
-- and one that finds it incomplete starts the grace period anew.
pub ends_iff :
    (t : Tick) (ts : List Tick)
    → ends t (grace_after ts)
      ≡ elim (complete_since (t ∷ ts)) [ none ↦ false | some n ↦ ltb (n + grace_period) t.later ]
unfolding ends grace_after
ends_iff t ts = elim (Bool-cases (is_complete t)) [
  | inl e ↦
      let start = or_zero t.now (complete_since ts) in
      ground (arith, (grace_after_lem (t ∷ ts)).1 start)
  | inr e ↦ ground arith
]
