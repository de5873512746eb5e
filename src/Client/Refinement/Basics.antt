-- ===== src/Client/Refinement/Basics.antt =====
-- The parts of client.go's operations that leave the core of a client alone, and the rules for
-- outcomes that are built of them.
use beacon_desk.Prelude.{
  ℕ, ◌≡◌, refl, sym, ap, ◌∙◌, String, Bool, true, false, Option, none, some, is_some, if◌then◌else◌,
}
use beacon_desk.Protocol.Message.{Envelope}
use beacon_desk.Client.State.{Conn, Client, Stores, Fault, Outcome}
use beacon_desk.Client.Basics.{emit, conn_after, write, keep_audit, record_audit}
use beacon_desk.Client.Commands.{after, settle}
use beacon_desk.Client.Handlers.{with_payload, keep_trust, touch_trusted}
use beacon_desk.Client.Core.{core, CoreStep, same_core}

is_some-conn_after : (o : Option Conn) (msg : Envelope) → is_some (conn_after o msg) ≡ is_some o
is_some-conn_after none msg = refl
is_some-conn_after (some k) msg = refl

module _ {D A : Type 0} where
  pub core-emit :
      (now : ℕ) (event message : String) (c : Client D A) → core (emit now event message c) ≡ core c
  unfolding emit
  core-emit now event message c = refl

  pub core-write : (c : Client D A) (msg : Envelope) → core (write c msg).0 ≡ core c
  unfolding write
  core-write c msg = ap (λ b. record (core c) { attached = b }) (is_some-conn_after c.conn msg)

  core-keep_audit :
      (now : ℕ) (audit : A) (e : Option String) (c : Client D A)
      → core (keep_audit now audit e c) ≡ core c
  unfolding emit
  core-keep_audit now audit none c = refl
  core-keep_audit now audit (some e) c = refl

  pub core-record_audit :
      (stores : Stores D A) (now : ℕ) (event peer session mode detail : String) (c : Client D A)
      → core (record_audit stores now event peer session mode detail c) ≡ core c
  unfolding record_audit
  core-record_audit stores now event peer session mode detail c = core-keep_audit now _ _ c

  core-keep_trust :
      (now : ℕ) (trust : D) (e : Option String) (c : Client D A)
      → core (keep_trust now trust e c) ≡ core c
  unfolding emit
  core-keep_trust now trust none c = refl
  core-keep_trust now trust (some e) c = refl

  pub core-touch_trusted :
      (stores : Stores D A) (now : ℕ) (peer : String) (c : Client D A)
      → core (touch_trusted stores now peer c) ≡ core c
  unfolding touch_trusted
  core-touch_trusted stores now peer c = core-keep_trust now _ _ c

  -- An outcome leaves the core of a client alone.
  pub record Same (c : Client D A) (o : Outcome D A) : Type 0 where
    pub same : core o.0 ≡ core c

  module _ {c : Client D A} where
    pub Same-pair : {d : Client D A} (e : Option Fault) → core d ≡ core c → Same c (d, e)
    Same-pair e h = record { same = h }

    pub Same-if : (b : Bool) (x y : Outcome D A) → Same c x → Same c y → Same c (if b then x else y)
    Same-if true x y hx hy = hx
    Same-if false x y hx hy = hy

    pub Same-option :
        {P : Type 0} (o : Option P) (n : Outcome D A) (f : P → Outcome D A)
        → Same c n
        → ((p : P) → Same c (f p))
        → Same c (elim o [ none ↦ n | some p ↦ f p ])
    Same-option none n f hn hf = hn
    Same-option (some p) n f hn hf = hf p

    pub Same-payload :
        {P : Type 0} (o : Option P) (d : Client D A) (f : P → Outcome D A)
        → core d ≡ core c
        → ((p : P) → Same c (f p))
        → Same c (with_payload o d f)
    unfolding with_payload
    Same-payload none d f hd hf = record { same = hd }
    Same-payload (some p) d f hd hf = hf p

    pub Same-write : (d : Client D A) (msg : Envelope) → core d ≡ core c → Same c (write d msg)
    Same-write d msg h = record { same = core-write d msg ∙ h }

    pub Same-after :
        (o : Outcome D A) (f : Client D A → Client D A)
        → Same c o
        → ((d : Client D A) → core (f d) ≡ core d)
        → Same c (after o f)
    unfolding after
    Same-after (d, none) f ho hf = record { same = hf d ∙ ho.same }
    Same-after (d, some e) f ho hf = record { same = ho.same }

  pub settle_rule {ℓ} :
      (P : Client D A → Type ℓ) (o : Outcome D A) (done : Client D A → Client D A)
      (failed : Fault → Client D A → Client D A)
      → P (done o.0)
      → ((e : Fault) → P (failed e o.0))
      → P (settle o done failed)
  unfolding settle
  settle_rule P (d, none) done failed hd hf = hd
  settle_rule P (d, some e) done failed hd hf = hf e

  -- An outcome is a step of the core.
  pub record Moves (c : Client D A) (o : Outcome D A) : Type 0 where
    pub moves : CoreStep (core c) (core o.0)

  module _ {c : Client D A} where
    pub Moves-same : {o : Outcome D A} → Same c o → Moves c o
    Moves-same h = record { moves = same_core (sym h.same) }

    pub Moves-pair :
        {d : Client D A} (e : Option Fault) → CoreStep (core c) (core d) → Moves c (d, e)
    Moves-pair e h = record { moves = h }

    pub Moves-if :
        (b : Bool) (x y : Outcome D A)
        → (b ≡ true → Moves c x)
        → (b ≡ false → Moves c y)
        → Moves c (if b then x else y)
    Moves-if true x y hx hy = hx refl
    Moves-if false x y hx hy = hy refl

    pub Moves-payload :
        {P : Type 0} (o : Option P) (f : P → Outcome D A)
        → ((p : P) → Moves c (f p))
        → Moves c (with_payload o c f)
    unfolding with_payload
    Moves-payload none f hf = record { moves = same_core refl }
    Moves-payload (some p) f hf = hf p
