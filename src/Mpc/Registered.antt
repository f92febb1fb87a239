-- ===== src/Mpc/Registered.antt =====
-- What registerReady and Resign leave in Consul.
use aicw_node.Base.{
  ◌≡◌, ◌↔◌, refl, inl, inr, Bool, true, false, ◌&&◌, Option, none, some, [], Str, str_eq,
  Bool-cases, &&-eq-true, some_injective,
}
use aicw_node.Consul.{Consul, IsConsul}
use aicw_node.Mpc.Presence.{
  Sessions, Presence, ready_key, created, create_ready_session, register_session, answered,
  acquire_again, acquired_or_again, register_ready, destroy_session, close_channels, resign,
}

-- Destroying a session stores nothing.
pub record IsSessions (c : Consul) (laws : IsConsul c) (sessions : Sessions c) : Type 0 where
  pub destroy_empties :
      (id k : Str) (s : c.State)
      → laws.stored s k ≡ none
      → laws.stored (sessions.destroy id s).1 k ≡ none

answered_iff :
    {S : Type 0} (r : Option Bool × S)
    → ((answered r).0 ≡ true) ↔ ((granted : Bool) × (r.0 ≡ some granted))
unfolding answered
answered_iff (none, s) = (λ h. absurd (cc), λ (g, e). absurd (cc))
answered_iff (some b, s) = (λ h. (b, refl), λ h. refl)

module _ (c : Consul) (sessions : Sessions c) where
  -- The first attempt is granted, or refused; then the entry is deleted and Consul answers a second
  -- attempt, whatever it decides.
  abbrev pub IsTried : Str → Str → Str → Option Bool × c.State → Type 0
  IsTried key epoch session (none, s) = ⊥
  IsTried key epoch session (some true, s) = Unit
  IsTried key epoch session (some false, s) =
      ((c.del key s).0 ≡ true)
      × ((granted : Bool) × ((c.acquire key epoch session (c.del key s).1).0 ≡ some granted))

  again_iff :
      (key epoch session : Str) (d : Bool × c.State)
      → ((acquire_again c sessions key epoch session d).0 ≡ true)
        ↔ ((d.0 ≡ true) × ((granted : Bool) × ((c.acquire key epoch session d.1).0 ≡ some granted)))
  unfolding acquire_again
  again_iff key epoch session (false, s) = (λ h. absurd (cc), λ h. absurd (cc))
  again_iff key epoch session (true, s) =
      let (f, b) = answered_iff (c.acquire key epoch session s) in (λ h. (refl, f h), λ h. b h.1)

  IsTried-iff :
      (key epoch session : Str) (r : Option Bool × c.State)
      → ((acquired_or_again c sessions key epoch session r).0 ≡ true) ↔ IsTried key epoch session r
  unfolding acquired_or_again
  IsTried-iff key epoch session (none, s) = (λ h. absurd (cc), λ h. absurd h)
  IsTried-iff key epoch session (some true, s) = (λ h. tt, λ h. refl)
  IsTried-iff key epoch session (some false, s) = again_iff key epoch session (c.del key s)

  session_iff :
      (epoch : Str) (p : Presence) (r : Option Str × c.State)
      → ((register_session c sessions epoch (created p r)).0 ≡ true) ↔ (
          (session : Str) × (r.0 ≡ some session)
          × IsTried (ready_key p) epoch session (c.acquire (ready_key p) epoch session r.1))
  unfolding register_session created
  session_iff epoch p (none, s) = (λ h. absurd (cc), λ (session, e, _). absurd (cc))
  session_iff epoch p (some x, s) = (
    λ h. (x, refl, (IsTried-iff (ready_key p) epoch x (c.acquire (ready_key p) epoch x s)).0 h),
    λ (session, e, t).
        rw (some_injective e)
          ((IsTried-iff (ready_key p) epoch session (c.acquire (ready_key p) epoch session s)).1 t),
  )

  -- registerReady returns no error exactly if a session was created and the entry of the node was
  -- acquired, or, having been refused, was deleted and a second attempt answered; that the second
  -- attempt is refused too is no error.
  pub register_ready_iff :
      (epoch : Str) (p : Presence) (s : c.State)
      → ((register_ready c sessions epoch p s).0 ≡ true) ↔ (
          (session : Str) × ((sessions.create s).0 ≡ some session)
          × IsTried
              (ready_key p)
              epoch
              session
              (c.acquire (ready_key p) epoch session (sessions.create s).1))
  unfolding register_ready create_ready_session
  register_ready_iff epoch p s = session_iff epoch p (sessions.create s)

  module _ (laws : IsConsul c) (lawful : IsSessions c laws sessions) where
    destroyed :
        (id k : Str) (s : c.State)
        → laws.stored s k ≡ none
        → laws.stored (destroy_session c sessions id s).1 k ≡ none
    unfolding destroy_session
    destroyed id k s h = elim (Bool-cases (str_eq id [])) [
      | inl e ↦ rw e h
      | inr e ↦ rw e (lawful.destroy_empties id k s h)
    ]

    -- A first Resign that reports no error has removed the node's ready entry, forgotten the session
    -- and closed the channels, and a further Resign changes nothing.
    pub resign_lem :
        (p : Presence) (s : c.State)
        → p.resigned ≡ false
        → (resign c sessions p s).0 ≡ true
        → (laws.stored (resign c sessions p s).2 (ready_key p) ≡ none)
          × ((resign c sessions p s).1 ≡ close_channels p)
          × ((t : c.State) → resign c sessions (close_channels p) t ≡ (true, close_channels p, t))
    unfolding resign close_channels
    resign_lem p s n h =
        let done : ((c.del (ready_key p) s).0
              && (destroy_session c sessions p.ready_session_id (c.del (ready_key p) s).1).0)
            ≡ true =
          rw (resign, n) at h in
        let gone = (&&-eq-true _ _ done).0 in
        let kept =
          destroyed p.ready_session_id (ready_key p) (c.del (ready_key p) s).1
            (laws.del_removes (ready_key p) s gone) in
        (rw (resign, n) kept, rw (resign, n) refl, λ t. refl)
