-- ===== src/Invitation/Held.antt =====
-- The keys that were accepted for an invitation, against its record: internal/enrollment/invite.go.
use warptweet.Prelude.{
  Bool, true, false, List, [], ◌∷◌, Bytes, equal, equal_iff, if◌then◌else◌, Option, none, some, ◌⊎◌,
  inl, inr, ◌≡◌, refl, ap, sym, ◌∙◌, arith, Bool-cases,
}
use mathlib.Core.Path.{subst}
use mathlib.Core.Option.{some-injective}
use warptweet.Invitation.Invite.{
  Record, InviteStatus, issued, consumed, cancelled, revoked, expired, unknown, is_issued,
}
use warptweet.Invitation.Store.{update}
use warptweet.Invitation.Request.{client_id_for}
use warptweet.Invitation.Use.{is_consumed}
use warptweet.Invitation.Moves.{Invites, may_write, Move, stays, writes, InPlace}
use warptweet.Invitation.Accepted.{Accepts, uses, again}

-- The keys of the requests that were accepted, each with the id of its invitation, latest first.
abbrev pub Accepted : Type 0
Accepted = List (Bytes × Bytes)

-- `P` holds for the keys that were accepted for an invitation.
abbrev pub EachFor : Bytes → (Bytes → Type 0) → Accepted → Type 0
EachFor id P [] = Unit {0}
EachFor id P ((i, key) ∷ done) = (i ≡ id → P key) × EachFor id P done

EachFor-mono :
    (id : Bytes) (P Q : Bytes → Type 0) (done : Accepted)
    → ((key : Bytes) → P key → Q key)
    → EachFor id P done
    → EachFor id Q done
EachFor-mono id P Q [] weaken h = tt
EachFor-mono id P Q ((i, key) ∷ done) weaken (p, h) =
    ((λ e. weaken key (p e)), EachFor-mono id P Q done weaken h)

module _ (sha256_hex : Bytes → Bytes) (id : Bytes) where
  abbrev pub OneClient : Bytes → Accepted → Type 0
  OneClient client_id = EachFor id (λ key. client_id_for sha256_hex id key ≡ client_id)

  -- Nothing was accepted while the invitation is issued. Once it is consumed, what was accepted is
  -- its client's; after its end, it is of one client.
  abbrev pub Used : InviteStatus → Bytes → Accepted → Type 0
  Used issued client_id done = EachFor id (λ _. ⊥) done
  Used consumed client_id done = OneClient client_id done
  Used _ _ done = (client_id : Bytes) × OneClient client_id done

  abbrev pub Held : Option Record → Accepted → Type 0
  Held none done = EachFor id (λ _. ⊥) done
  Held (some r) done = Used r.status r.client_id done

  none-OneClient :
      (client_id : Bytes) (done : Accepted) → EachFor id (λ _. ⊥) done → OneClient client_id done
  none-OneClient client_id done h = EachFor-mono id _ _ done (λ key b. absurd b) h

  Used-one :
      (s : InviteStatus) (c : Bytes) (done : Accepted)
      → Used s c done
      → (d : Bytes) × OneClient d done
  Used-one issued c done h = ([], none-OneClient [] done h)
  Used-one consumed c done h = (c, h)
  Used-one cancelled c done h = h
  Used-one revoked c done h = h
  Used-one expired c done h = h
  Used-one (unknown t) c done h = h

  pub Held-one :
      (o : Option Record) (done : Accepted) → Held o done → (d : Bytes) × OneClient d done
  Held-one none done h = ([], none-OneClient [] done h)
  Held-one (some r) done h = Used-one r.status r.client_id done h

  issued-none :
      (s : InviteStatus) (c : Bytes) (done : Accepted)
      → is_issued s ≡ true
      → Used s c done
      → EachFor id (λ _. ⊥) done
  issued-none issued c done e h = h
  issued-none consumed c done e h = cc
  issued-none cancelled c done e h = cc
  issued-none revoked c done e h = cc
  issued-none expired c done e h = cc
  issued-none (unknown t) c done e h = cc

  -- What may be written keeps it.
  Held-write :
      (o : Option Record) (s : InviteStatus) (c : Bytes) (done : Accepted)
      → may_write o s ≡ true
      → Held o done
      → Used s c done
  Held-write none issued c done e h = h
  Held-write (some r) issued c done e h = cc
  Held-write none consumed c done e h = cc
  Held-write (some r) consumed c done e h =
      none-OneClient c done (issued-none r.status r.client_id done e h)
  Held-write o cancelled c done e h = Held-one o done h
  Held-write o revoked c done e h = Held-one o done h
  Held-write o expired c done e h = Held-one o done h
  Held-write none (unknown t) c done e h = cc
  Held-write (some r) (unknown t) c done e h = cc

  Held-update :
      (f : Invites) (id' : Bytes) (new : Record) (done : Accepted)
      → (id' ≡ id → Used new.status new.client_id done)
      → Held (f id) done
      → Held (update id' new f id) done
  Held-update f id' new done there h = by_id (equal id id') refl
    where
      by_id : (b : Bool) → equal id id' ≡ b → Held (if b then some new else f id) done
      by_id true e = there (sym ((equal_iff id id').0 e))
      by_id false e = h

  pub Held-Move : (f g : Invites) (done : Accepted) → Move f g → Held (f id) done → Held (g id) done
  Held-Move f g done (stays e) h = subst (λ (k : Invites). Held (k id) done) (sym e) h
  Held-Move f g done (writes new e may) h =
      subst (λ (k : Invites). Held (k id) done) (sym e)
        (Held-update f new.invite.invite_id new done
          (λ same.
            Held-write (f new.invite.invite_id) new.status new.client_id done may
              (subst (λ (i : Bytes). Held (f i) done) (sym same) h))
          h)

  module _ (id' key : Bytes) (done : Accepted) where
    abbrev more : Accepted
    more = (id', key) ∷ done

    Used-other : (s : InviteStatus) (c : Bytes) → (id' ≡ id → ⊥) → Used s c done → Used s c more
    Used-other issued c not_it h = (not_it, h)
    Used-other consumed c not_it h = ((λ e. absurd (not_it e)), h)
    Used-other cancelled c not_it (d, h) = (d, ((λ e. absurd (not_it e)), h))
    Used-other revoked c not_it (d, h) = (d, ((λ e. absurd (not_it e)), h))
    Used-other expired c not_it (d, h) = (d, ((λ e. absurd (not_it e)), h))
    Used-other (unknown t) c not_it (d, h) = (d, ((λ e. absurd (not_it e)), h))

    -- A key that was accepted for another invitation does not count.
    Held-other : (o : Option Record) → (id' ≡ id → ⊥) → Held o done → Held o more
    Held-other none not_it h = (not_it, h)
    Held-other (some r) not_it h = Used-other r.status r.client_id not_it h

    Used-again :
        (s : InviteStatus) (c : Bytes)
        → is_consumed s ≡ true
        → client_id_for sha256_hex id key ≡ c
        → Used s c done
        → Used s c more
    Used-again consumed c e client h = ((λ _. client), h)
    Used-again issued c e client h = cc
    Used-again cancelled c e client h = cc
    Used-again revoked c e client h = cc
    Used-again expired c e client h = cc
    Used-again (unknown t) c e client h = cc

    Used-first :
        (s : InviteStatus) (c : Bytes)
        → s ≡ consumed
        → client_id_for sha256_hex id key ≡ c
        → EachFor id (λ _. ⊥) done
        → Used s c more
    Used-first s c e client h =
        subst (λ (t : InviteStatus). Used t c more) (sym e) ((λ _. client), none-OneClient c done h)

  pub Held-Accepts :
      (f g : Invites) (id' : Bytes) (key : Bytes) (done : Accepted)
      → Accepts sha256_hex f id' key g
      → Held (f id) done
      → Held (g id) ((id', key) ∷ done)
  Held-Accepts f g id' key done (uses r c) h =
      subst (λ (k : Invites). Held (k id) (more id' key done)) (sym c.wrote_it)
        (by_id (equal id id') refl)
    where
      first : id ≡ id' → Used r.status r.client_id (more id' key done)
      first same =
          Used-first id' key done r.status r.client_id c.now_consumed
            (ap (λ (i : Bytes). client_id_for sha256_hex i key) same ∙ sym c.by_client)
            (issued-none c.before.status c.before.client_id done c.was_issued (
              subst (λ (o : Option Record). Held o done) c.was
                (subst (λ (i : Bytes). Held (f i) done) same h)))

      by_id : (b : Bool) → equal id id' ≡ b → Held (if b then some r else f id) (more id' key done)
      by_id true e = first ((equal_iff id id').0 e)
      by_id false e = Held-other id' key done (f id) (λ same. ground (arith, equal_iff id id')) h
  Held-Accepts f g id' key done (again r was e by_client same) h =
      subst (λ (k : Invites). Held (k id) (more id' key done)) (sym same)
        (by_id (Bool-cases (equal id id')))
    where
      there : id ≡ id' → Held (f id) (more id' key done)
      there same_id =
          subst (λ (o : Option Record). Held o (more id' key done)) (sym (ap f same_id ∙ was))
            (Used-again id' key done r.status r.client_id e
              (ap (λ (i : Bytes). client_id_for sha256_hex i key) same_id ∙ sym by_client)
              (subst (λ (o : Option Record). Held o done) (ap f same_id ∙ was) h))

      by_id : (equal id id' ≡ true) ⊎ (equal id id' ≡ false) → Held (f id) (more id' key done)
      by_id (inl e) = there ((equal_iff id id').0 e)
      by_id (inr e) = Held-other id' key done (f id) (λ same. ground (arith, equal_iff id id')) h

InPlace-update :
    (f : Invites) (id : Bytes) (new : Record)
    → new.invite.invite_id ≡ id
    → InPlace f
    → InPlace (update id new f)
InPlace-update f id new same in_place i r = by_id (Bool-cases (equal i id))
  where
    by_id :
        (equal i id ≡ true) ⊎ (equal i id ≡ false)
        → update id new f i ≡ some r
        → r.invite.invite_id ≡ i
    by_id (inl e) h =
        ap (λ (s : Record). s.invite.invite_id) (sym (some-injective new r (rw e at h)))
        ∙ same
        ∙ sym ((equal_iff i id).0 e)
    by_id (inr e) h = in_place i r (rw e at h)

pub InPlace-Move : (f g : Invites) → Move f g → InPlace f → InPlace g
InPlace-Move f g (stays e) h = subst InPlace (sym e) h
InPlace-Move f g (writes new e may) h =
    subst InPlace (sym e) (InPlace-update f new.invite.invite_id new refl h)

pub InPlace-Accepts :
    (sha256_hex : Bytes → Bytes) (f g : Invites) (id : Bytes) (key : Bytes)
    → Accepts sha256_hex f id key g
    → InPlace f
    → InPlace g
InPlace-Accepts sha256_hex f g id key (uses r c) h =
    subst InPlace (sym c.wrote_it) (InPlace-update f id r c.in_its_place h)
InPlace-Accepts sha256_hex f g id key (again r was e by_client same) h = subst InPlace (sym same) h

-- The key was accepted for the invitation.
abbrev pub WasAccepted : Bytes → Bytes → Accepted → Type 0
WasAccepted id key [] = ⊥
WasAccepted id key ((i, k) ∷ done) = ((i ≡ id) × (k ≡ key)) ⊎ WasAccepted id key done

pub EachFor-accepted :
    (id : Bytes) (P : Bytes → Type 0) (key : Bytes) (done : Accepted)
    → EachFor id P done
    → WasAccepted id key done
    → P key
EachFor-accepted id P key [] h a = absurd a
EachFor-accepted id P key ((i, k) ∷ done) (p, h) (inl (e, same)) = subst P same (p e)
EachFor-accepted id P key ((i, k) ∷ done) (p, h) (inr a) = EachFor-accepted id P key done h a

pub Held-none :
    (sha256_hex : Bytes → Bytes) (id : Bytes) (o : Option Record) → Held sha256_hex id o []
Held-none sha256_hex id none = tt
Held-none sha256_hex id (some r) = by_status r.status
  where
    by_status : (s : InviteStatus) → Used sha256_hex id s r.client_id []
    by_status issued = tt
    by_status consumed = tt
    by_status cancelled = ([], tt)
    by_status revoked = ([], tt)
    by_status expired = ([], tt)
    by_status (unknown t) = ([], tt)
