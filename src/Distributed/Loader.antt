-- ===== src/Distributed/Loader.antt =====
-- The iteration of `DistLoader` of graphlearn_torch/python/distributed/dist_loader.py over an epoch.
use mathlib.Core.Path.{subst}
use graphlearn_for_pytorch.Prelude.{
  ℕ, zero, suc, ◌+◌, ◌≡◌, ◌≢◌, refl, ap, sym, ◌∙◌, Option, none, some, List, [], ◌∷◌, ◌++◌, ◌==◌,
  ==_refl, ==_ne, if◌then◌else◌, length, ◌>>=◌, >>=-eq-some, some_inj, traverse, arith,
}

-- The messages that wait in the channel, in the order of their arrival.
pub record DistLoader (Message : Type 0) : Type 0 where
  pub num_expected : ℕ
  pub num_recv : ℕ
  pub channel : List Message

-- What `__next__` does: it raises StopIteration, waits for a message, raises an error, or returns.
pub data Next (Message Result : Type 0) : Type 0 where
  stop_iteration : Next Message Result
  blocks : Next Message Result
  raises : DistLoader Message → Next Message Result
  returns : Result → DistLoader Message → Next Message Result

module _ {Message Result : Type 0} (collate : Message → Option Result) where
  abbrev pub collated : DistLoader Message → Option Result → Next Message Result
  collated self none = raises self
  collated self (some result) = returns result (record self { num_recv = self.num_recv + 1 })

  abbrev pub receive : DistLoader Message → List Message → Next Message Result
  receive self [] = blocks
  receive self (msg ∷ msgs) = collated (record self { channel = msgs }) (collate msg)

  -- `__next__`
  unfoldable pub next : DistLoader Message → Next Message Result
  next self =
      if self.num_recv == self.num_expected then stop_iteration else receive self self.channel

  -- `__iter__`, after which the producer has sent some messages.
  unfoldable pub start_epoch : DistLoader Message → List Message → DistLoader Message
  start_epoch self sent = record self { num_recv = 0; channel = self.channel ++ sent }

  -- The loop `for result in loader`, with the results and the loader after it. The number bounds
  -- the calls of `__next__`; nothing if there are too few, or if a call blocks or raises an error.
  unfoldable pub for_loop : ℕ → DistLoader Message → Option (List Result × DistLoader Message)
  unfolding next
  for_loop zero self = none
  for_loop (suc calls) self = elim (next self) [
    | stop_iteration ↦ some ([], self)
    | blocks ↦ none
    | raises self' ↦ none
    | returns result self' ↦
        for_loop calls self' >>= λ (results, after). some (result ∷ results, after)
  ]

  next_stops :
      (expected : ℕ) (msgs : List Message)
      → next (record { num_expected = expected; num_recv = expected; channel = msgs })
        ≡ stop_iteration
  unfolding next
  next_stops expected msgs = rw (==_refl expected) refl

  next_returns :
      (expected recv : ℕ) (msg : Message) (msgs : List Message) (result : Result)
      → recv ≢ expected
      → collate msg ≡ some result
      → next (record { num_expected = expected; num_recv = recv; channel = msg ∷ msgs })
        ≡ returns result (record { num_expected = expected; num_recv = recv + 1; channel = msgs })
  unfolding next
  next_returns expected recv msg msgs result more here = rw (==_ne recv expected more, here) refl

  loop_stops :
      (calls : ℕ) (self : DistLoader Message)
      → next self ≡ stop_iteration
      → for_loop (suc calls) self ≡ some ([], self)
  unfolding for_loop
  loop_stops calls self e = rw (for_loop, e) refl

  loop_returns :
      (calls : ℕ) (self self' after : DistLoader Message) (result : Result) (results : List Result)
      → next self ≡ returns result self'
      → for_loop calls self' ≡ some (results, after)
      → for_loop (suc calls) self ≡ some (result ∷ results, after)
  unfolding for_loop
  loop_returns calls self self' after result results e h = rw (for_loop, e, h) refl

  loop_done :
      (expected : ℕ)
      → for_loop 1 (record { num_expected = expected; num_recv = expected; channel = [] })
        ≡ some ([], record { num_expected = expected; num_recv = expected; channel = [] })
  loop_done expected = loop_stops 0 _ (next_stops expected [])

  loop_from :
      (expected recv : ℕ) (msgs : List Message) (results : List Result)
      → recv + length msgs ≡ expected
      → traverse collate msgs ≡ some results
      → for_loop
          (suc (length msgs))
          (record { num_expected = expected; num_recv = recv; channel = msgs })
        ≡ some (results, record { num_expected = expected; num_recv = expected; channel = [] })
  loop_from expected recv [] results left read =
      let same : recv ≡ expected = omega (arith, left) in
      subst
        (λ k.
          for_loop 1 (record { num_expected = expected; num_recv = k; channel = [] })
          ≡ some (results, record { num_expected = expected; num_recv = expected; channel = [] }))
        (sym same)
        (loop_done expected
          ∙ ap
              (λ rs.
                some (rs, record { num_expected = expected; num_recv = expected; channel = [] }))
              (some_inj read))
  loop_from expected recv (msg ∷ msgs) results left read =
      let (result, here, read') = >>=-eq-some (collate msg) _ read in
      let (rest, there, all) = >>=-eq-some (traverse collate msgs) _ read' in
      loop_returns (suc (length msgs)) _ _ _ result rest
        (next_returns expected recv msg msgs result (λ e. absurd (omega (arith, e, left))) here)
        (loop_from expected (recv + 1) msgs rest (omega (arith, left)) there)
      ∙ ap (λ rs. some (rs, record { num_expected = expected; num_recv = expected; channel = [] }))
          (some_inj all)

  -- If as many messages are sent in an epoch as are expected, each can be collated, and none is left
  -- from the epoch before, the loop returns their results in the order of arrival, by one call of
  -- `__next__` for each and one that stops it, and leaves no message for the next epoch.
  pub for_loop-start_epoch :
      (self : DistLoader Message) (sent : List Message) (results : List Result)
      → self.channel ≡ []
      → length sent ≡ self.num_expected
      → traverse collate sent ≡ some results
      → for_loop (suc self.num_expected) (start_epoch self sent)
        ≡ some (
          results,
          record { num_expected = self.num_expected; num_recv = self.num_expected; channel = [] },
        )
  unfolding start_epoch
  for_loop-start_epoch self sent results empty size read =
      rw (empty, ← size) (loop_from (length sent) 0 sent results (omega arith) read)
