-- ===== src/Ha/Snapshots.antt =====
-- `HaController::TakeSnapshot`: which sessions a snapshot holds.
use nimblefix.Common.{
  ℕ, max, ◌≡◌, refl, sym, arith, Bool, true, false, ◌||◌, List, [], ◌∷◌, ◌++◌, ◌==◌, if◌then◌else◌,
  Option, some, none, ap, ◌∙◌, subst, ==_iff, inl, inr, Bool-cases,
}
use nimblefix.Status.{ok}
use nimblefix.Ha.{HaController, SessionSequenceState, HaStateSnapshot}
use nimblefix.Ha.Replication.{
  LiveSession, take_snapshot, add_missing, has_session, fresh_state, live_state, map_live,
}

-- The first state with the id.
unfoldable pub state_of : ℕ → List SessionSequenceState → Option SessionSequenceState
state_of id [] = none
state_of id (s ∷ rest) =
    let later = state_of id rest in if s.session_id == id then some s else later

-- The ids that stand in the list.
abbrev pub is_member : ℕ → List ℕ → Bool
is_member id [] = false
is_member id (x ∷ xs) = x == id || is_member id xs

-- What a lookup by id finds when the fresh states of `ids` are the fallback.
abbrev pub or_fresh : Option SessionSequenceState → ℕ → List ℕ → Option SessionSequenceState
or_fresh (some s) id ids = some s
or_fresh none id ids = if is_member id ids then some (fresh_state id) else none

state_of-append :
    (id new_id : ℕ) (states : List SessionSequenceState)
    → state_of id (states ++ (fresh_state new_id ∷ []))
      ≡ or_fresh (state_of id states) id (new_id ∷ [])
unfolding state_of
state_of-append id new_id [] = ground arith
state_of-append id new_id (s ∷ states) = ground (arith, state_of-append id new_id states)

abbrev is_some : Option SessionSequenceState → Bool
is_some none = false
is_some (some s) = true

has_session-state_of :
    (id : ℕ) (states : List SessionSequenceState)
    → has_session id states ≡ is_some (state_of id states)
unfolding state_of has_session
has_session-state_of id [] = refl
has_session-state_of id (s ∷ states) = ground (arith, has_session-state_of id states)

or_fresh-append :
    (o : Option SessionSequenceState) (id new_id : ℕ) (ids : List ℕ)
    → or_fresh (or_fresh o id (new_id ∷ [])) id ids ≡ or_fresh o id (new_id ∷ ids)
or_fresh-append (some s) id new_id ids = refl
or_fresh-append none id new_id ids = ground arith

or_fresh-is_some :
    (o : Option SessionSequenceState) (id new_id : ℕ) (ids : List ℕ)
    → ((new_id == id) ≡ true → is_some o ≡ true)
    → or_fresh o id ids ≡ or_fresh o id (new_id ∷ ids)
or_fresh-is_some (some s) id new_id ids h = refl
or_fresh-is_some none id new_id ids h = elim (Bool-cases (new_id == id)) [
  | inl e ↦ absurd (ground (arith, h e))
  | inr e ↦ rw e refl
]

or_fresh-present :
    (states : List SessionSequenceState) (id new_id : ℕ) (ids : List ℕ)
    → has_session new_id states ≡ true
    → or_fresh (state_of id states) id ids ≡ or_fresh (state_of id states) id (new_id ∷ ids)
or_fresh-present states id new_id ids h = or_fresh-is_some (state_of id states) id new_id ids (λ e.
    sym (has_session-state_of id states)
    ∙ subst (λ i. has_session i states ≡ true) ((==_iff new_id id).0 e) h)

pub state_of-add_missing :
    (id : ℕ) (states : List SessionSequenceState) (ids : List ℕ)
    → state_of id (add_missing states ids) ≡ or_fresh (state_of id states) id ids
unfolding add_missing
state_of-add_missing id states [] = ground arith
state_of-add_missing id states (new_id ∷ ids) = elim (Bool-cases (has_session new_id states)) [
  | inl e ↦ rw e (state_of-add_missing id states ids ∙ or_fresh-present states id new_id ids e)
  | inr e ↦ rw e (
      state_of-add_missing id (states ++ (fresh_state new_id ∷ [])) ids
      ∙ (ap (λ o. or_fresh o id ids) (state_of-append id new_id states)
          ∙ or_fresh-append (state_of id states) id new_id ids))
]

-- No two states have one id.
unfoldable pub AreDistinct : List SessionSequenceState → Type 0
AreDistinct [] = Unit {0}
AreDistinct (s ∷ rest) = (state_of s.session_id rest ≡ none) × AreDistinct rest

-- The first live session with the id.
unfoldable pub session_of : ℕ → List LiveSession → Option LiveSession
session_of id [] = none
session_of id (s ∷ rest) =
    let later = session_of id rest in if s.session_id == id then some s else later

-- No two live sessions have one id.
unfoldable pub HaveOwnIds : List LiveSession → Type 0
HaveOwnIds [] = Unit {0}
HaveOwnIds (s ∷ rest) = (session_of s.session_id rest ≡ none) × HaveOwnIds rest

-- What a snapshot holds under an id, by the live session and by whether the id is configured.
abbrev pub snapshot_entry : Option LiveSession → Bool → ℕ → Option SessionSequenceState
snapshot_entry (some s) configured id = some (record {
  session_id = s.session_id;
  next_inbound_seq = s.next_in_seq;
  next_outbound_seq = s.next_out_seq;
  last_activity_ns = max s.last_inbound_ns s.last_outbound_ns;
})
snapshot_entry none true id =
    some (record {
      session_id = id;
      next_inbound_seq = 1;
      next_outbound_seq = 1;
      last_activity_ns = 0;
    })
snapshot_entry none false id = none

-- The state of a live session, if there is one.
abbrev state_if : Option LiveSession → Option SessionSequenceState
state_if none = none
state_if (some s) = some (live_state s)

state_of-map_live :
    (id : ℕ) (live : List LiveSession) → state_of id (map_live live) ≡ state_if (session_of id live)
unfolding state_of session_of
state_of-map_live id [] = refl
state_of-map_live id (s ∷ live) = ground (arith, state_of-map_live id live)

map_live-AreDistinct : (live : List LiveSession) → HaveOwnIds live → AreDistinct (map_live live)
unfolding HaveOwnIds AreDistinct
map_live-AreDistinct [] d = tt
map_live-AreDistinct (s ∷ live) d =
    (state_of-map_live s.session_id live ∙ ap state_if d.0, map_live-AreDistinct live d.1)

entry_lem :
    (o : Option LiveSession) (id : ℕ) (ids : List ℕ)
    → or_fresh (state_if o) id ids ≡ snapshot_entry o (is_member id ids) id
entry_lem (some s) id ids = refl
entry_lem none id ids = by_member (is_member id ids)
  where
    by_member : (b : Bool) → (if b then some (fresh_state id) else none) ≡ snapshot_entry none b id
    by_member true = refl
    by_member false = refl

absent : (o : Option SessionSequenceState) → is_some o ≡ false → o ≡ none
absent none h = refl
absent (some s) h = absurd (ground arith)

has_session-none :
    (id : ℕ) (states : List SessionSequenceState)
    → has_session id states ≡ false
    → state_of id states ≡ none
has_session-none id states h =
    absent (state_of id states) (sym (has_session-state_of id states) ∙ h)

append-AreDistinct :
    (new_id : ℕ) (states : List SessionSequenceState)
    → state_of new_id states ≡ none
    → AreDistinct states
    → AreDistinct (states ++ (fresh_state new_id ∷ []))
unfolding AreDistinct state_of
append-AreDistinct new_id [] h d = (refl, tt)
append-AreDistinct new_id (s ∷ states) h d = (
  state_of-append s.session_id new_id states
      ∙ ap (λ o. or_fresh o s.session_id (new_id ∷ [])) d.0
      ∙ ground arith,
  append-AreDistinct new_id states (ground arith) (d.1),
)

add_missing-AreDistinct :
    (states : List SessionSequenceState) (ids : List ℕ)
    → AreDistinct states
    → AreDistinct (add_missing states ids)
unfolding add_missing
add_missing-AreDistinct states [] d = d
add_missing-AreDistinct states (new_id ∷ ids) d = elim (Bool-cases (has_session new_id states)) [
  | inl e ↦ rw e (add_missing-AreDistinct states ids d)
  | inr e ↦ rw e (
      add_missing-AreDistinct (states ++ (fresh_state new_id ∷ [])) ids
        (append-AreDistinct new_id states (has_session-none new_id states e) d))
]

-- A snapshot of an engine whose live sessions have different ids has the time of the clock, the
-- current generation and no two states with one id. Under each id it holds: for a live session,
-- its two numbers and the later of its two times of activity; for a configured session that is
-- not live, both numbers 1 and no activity; nothing for any other id.
pub take_snapshot_lem :
    (clock : ℕ) (c : HaController) (live : List LiveSession) (ids : List ℕ) (id : ℕ)
    → HaveOwnIds live
    → (snapshot : HaStateSnapshot) × (take_snapshot clock c (some (live, ids)) ≡ ok snapshot)
      × (snapshot.snapshot_timestamp_ns ≡ clock)
      × (snapshot.generation ≡ c.generation)
      × AreDistinct snapshot.sessions
      × (state_of id snapshot.sessions ≡ snapshot_entry (session_of id live) (is_member id ids) id)
unfolding take_snapshot
take_snapshot_lem clock c live ids id d = (
  _,
  refl,
  refl,
  refl,
  add_missing-AreDistinct (map_live live) ids (map_live-AreDistinct live d),
  state_of-add_missing id (map_live live) ids
      ∙ ap (λ o. or_fresh o id ids) (state_of-map_live id live)
      ∙ entry_lem (session_of id live) id ids,
)
