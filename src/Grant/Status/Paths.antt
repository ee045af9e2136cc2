-- ===== src/Grant/Status/Paths.antt =====
-- Sequences of authorized mutations of a grant: `AuthorizeTransition`, over and over.
use warptweet.Prelude.{Bool, true, false, equal_iff, ok, ◌≡◌, refl, ◌⊎◌, arith, ◌≢◌, ◌↔◌, ◌∙◌}
use warptweet.Grant.Status.{
  Status, enrollment_pending, active, expiration_pending, expired, rotation_pending,
  revocation_pending, revoked, other, same, known, terminal, authorize_transition,
}

pub same_iff : (a b : Status) → (same a b ≡ true) ↔ (a ≡ b)
unfolding same
same_iff (other a) (other b) = ground (arith, equal_iff a b)
same_iff enrollment_pending _ = ground arith
same_iff _ _ = ground arith

-- Any number of authorized mutations, one after the other.
pub data History (from : Status) : Status → Type 0 where
  start : known from ≡ true → History from from
  mutate : {s t : Status} → History from s → authorize_transition s t ≡ ok tt → History from t

-- The grant is being ended, or has ended.
abbrev pub is_ending : Status → Bool
is_ending expiration_pending = true
is_ending expired = true
is_ending revocation_pending = true
is_ending revoked = true
is_ending _ = false

step_is_ending :
    (s t : Status) → is_ending s ≡ true → authorize_transition s t ≡ ok tt → is_ending t ≡ true
unfolding authorize_transition
step_is_ending (other a) t e h = ground arith
step_is_ending _ t e h = ground arith

step_terminal : (s t : Status) → terminal s ≡ true → authorize_transition s t ≡ ok tt → t ≡ s
unfolding authorize_transition terminal
step_terminal (other a) t e h = ground arith
step_terminal _ t e h = ground arith

-- A grant that is being ended stays so, or ends: no sequence of authorized mutations brings it
-- back to pending, active or rotating.
pub History-is_ending : {s t : Status} → is_ending s ≡ true → History s t → is_ending t ≡ true
History-is_ending e (start k) = e
History-is_ending e (mutate {s} {t} h a) = step_is_ending s t (History-is_ending e h) a

-- A terminal status is absorbing: no sequence of authorized mutations changes it.
pub History-terminal : {s t : Status} → terminal s ≡ true → History s t → t ≡ s
History-terminal e (start k) = refl
History-terminal {s} e (mutate {s = u} {t} h a) =
    let same_as : u ≡ s = History-terminal e h in step_terminal u t (rw same_as e) a ∙ same_as

-- Expiry and revocation are each reached through their pending status only, and no mutation
-- from a status that the source does not name, or to one, is authorized.
pub authorize_transition_enters :
    (s t : Status)
    → authorize_transition s t ≡ ok tt
    → (t ≡ expired → (s ≡ expired) ⊎ (s ≡ expiration_pending))
      × (t ≡ revoked → (s ≡ revoked) ⊎ (s ≡ revocation_pending))
      × (known s ≡ true)
      × (known t ≡ true)
unfolding authorize_transition known
authorize_transition_enters (other a) (other b) h = ground arith
authorize_transition_enters _ _ h = ground arith

-- Every grant that has not expired can be revoked, by authorized mutations alone.
pub History-revoked : (s : Status) → known s ≡ true → s ≢ expired → History s revoked
unfolding authorize_transition known
History-revoked enrollment_pending k n =
    mutate {s = revocation_pending} (mutate {s = active} (mutate (start refl) refl) refl) refl
History-revoked active k n = mutate {s = revocation_pending} (mutate (start refl) refl) refl
History-revoked expiration_pending k n =
    mutate {s = revocation_pending} (mutate (start refl) refl) refl
History-revoked expired k n = absurd (n refl)
History-revoked rotation_pending k n =
    mutate {s = revocation_pending} (mutate (start refl) refl) refl
History-revoked revocation_pending k n = mutate (start refl) refl
History-revoked revoked k n = start refl
History-revoked (other a) k n = cc
