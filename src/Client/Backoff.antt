-- ===== src/Client/Backoff.antt =====
-- The delays of client.go's `reconnect`: they double, up to the longest one.
use beacon_desk.Prelude.{
  ℕ, zero, suc, ◌*◌, ◌^◌, ◌≤◌, ◌<◌, ◌≡◌, sym, ap, ◌∙◌, subst, none, ltb, if◌then◌else◌, arith,
}
use native.Mathlib.Nat.{pow-suc}
use beacon_desk.Prelude.Int.{ℤ, pos, ltb_ℤ, wrap64_id}
use beacon_desk.Client.State.{Client, Texts}
use beacon_desk.Client.Basics.{emit}
use beacon_desk.Client.Connection.{
  ReadLoop, retrying, announce_reconnect, connect, resume, retry, next_delay,
}

abbrev pub smaller : ℕ → ℕ → ℕ
smaller a b = if ltb b a then b else a

next_delay_lem :
    (longest delay : ℕ)
    → longest < 2 ^ 62
    → delay ≤ longest
    → next_delay (pos longest) (pos delay) ≡ pos (smaller (2 * delay) longest)
unfolding next_delay
next_delay_lem longest delay h k =
    ap (λ z. if ltb_ℤ (pos longest) z then pos longest else z)
      (wrap64_id (pos (delay * 2)) (ground arith))
    ∙ ground arith

smaller_twice :
    (m n longest : ℕ)
    → smaller (2 * smaller (m * n) longest) longest ≡ smaller (m * (n * 2)) longest
smaller_twice m n longest = ground arith

module _ {D A : Type 0} (texts : Texts) (now : ℕ) where
  -- A round of `reconnect` whose attempt to dial fails.
  unfoldable pub failed_round : Client D A × ReadLoop → Client D A × ReadLoop
  failed_round (c, retrying delay) =
      retry texts now delay none (announce_reconnect texts now delay c)
  failed_round (c, loop) = (c, loop)

  unfoldable pub failed_rounds : ℕ → Client D A × ReadLoop → Client D A × ReadLoop
  failed_rounds zero r = r
  failed_rounds (suc n) r = failed_round (failed_rounds n r)

  -- What such rounds leave alone, and the delay that they come to.
  record Delayed (longest : ℤ) (delay : ℕ) (r : Client D A × ReadLoop) : Type 0 where
    longest_kept : r.0.opts.reconnect_max_delay ≡ longest
    loop : r.1 ≡ retrying (pos delay)

  failed_round-Delayed :
      (longest delay : ℕ) (r : Client D A × ReadLoop)
      → longest < 2 ^ 62
      → delay ≤ longest
      → Delayed (pos longest) delay r
      → Delayed (pos longest) (smaller (2 * delay) longest) (failed_round r)
  unfolding failed_round retry resume connect announce_reconnect emit
  failed_round-Delayed longest delay (c, loop) h k r = record {
    longest_kept = ap longest_of r.loop ∙ r.longest_kept;
    loop =
        ap loop_of r.loop
        ∙ (ap (λ z. retrying (next_delay z (pos delay))) r.longest_kept
            ∙ ap retrying (next_delay_lem longest delay h k));
  }
    where
      loop_of : ReadLoop → ReadLoop
      loop_of l = (failed_round (c, l)).1

      longest_of : ReadLoop → ℤ
      longest_of l = (failed_round (c, l)).0.opts.reconnect_max_delay

  failed_rounds-Delayed :
      (n shortest longest : ℕ) (c : Client D A)
      → longest < 2 ^ 62
      → shortest ≤ longest
      → c.opts.reconnect_max_delay ≡ pos longest
      → Delayed
          (pos longest)
          (smaller (shortest * 2 ^ n) longest)
          (failed_rounds n (c, retrying (pos shortest)))
  unfolding failed_rounds
  failed_rounds-Delayed zero shortest longest c h k e = record {
    longest_kept = e;
    loop = ap (λ d. retrying (pos d)) (ground arith);
  }
  failed_rounds-Delayed (suc n) shortest longest c h k e =
      let earlier = failed_rounds-Delayed n shortest longest c h k e in
      subst (λ d. Delayed (pos longest) d (failed_rounds (suc n) (c, retrying (pos shortest))))
        (smaller_twice shortest (2 ^ n) longest
          ∙ ap (λ x. smaller (shortest * x) longest) (sym (pow-suc 2 n)))
        (failed_round-Delayed longest _ _ h (ground arith) earlier)

  -- After `n` attempts that fail, the delay is the shortest one, doubled `n` times, but not longer
  -- than the longest one.
  pub failed_rounds_lem :
      (n shortest longest : ℕ) (c : Client D A)
      → longest < 2 ^ 62
      → shortest ≤ longest
      → c.opts.reconnect_max_delay ≡ pos longest
      → (failed_rounds n (c, retrying (pos shortest))).1
        ≡ retrying (pos (smaller (shortest * 2 ^ n) longest))
  failed_rounds_lem n shortest longest c h k e =
      (failed_rounds-Delayed n shortest longest c h k e).loop
