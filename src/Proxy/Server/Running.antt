-- ===== src/Proxy/Server/Running.antt =====
-- Server.Start of internal/proxy/server.go: the goroutine that listens, the channel with one place, the
-- context, and the select that waits for the two.
pub mod Laws
use k8s_ai_operator.Base.{
  Text, lit, ◌≡◌, ◌≢◌, Bool, true, false, Option, none, some, ◌++◌, Result, err, map_err,
}

-- The goroutine: in ListenAndServe, about to send on the channel, or at its end.
pub data Listener : Type 0 where
  listening : Listener
  sending : Text → Listener
  ended : Listener

-- Start itself: at the select, in Shutdown, or back at its caller.
pub data Starter : Type 0 where
  selecting shutting_down : Starter
  returned : Result (Unit {0}) → Starter

pub record Run : Type 0 where
  pub listener : Listener
  -- errCh
  pub channel : Option Text
  pub cancelled : Bool
  pub starter : Starter

abbrev pub started : Run
started = record { listener = listening; channel = none; cancelled = false; starter = selecting }

-- `fmt.Errorf("proxy server shutdown: %w", err)`
abbrev pub shutdown_result : Result (Unit {0}) → Result (Unit {0})
shutdown_result r = map_err (λ e. lit "proxy server shutdown: " ++ e) r

-- One step of the goroutine, of Start, or of whoever cancels the context. By its documentation
-- ListenAndServe returns ErrServerClosed only once Shutdown has been called.
pub data Step (p : Run) : Run → Type 0 where
  listen_failed :
      (e : Text)
      → p.listener ≡ listening
      → Step p (record p { listener = sending (lit "proxy server: " ++ e) })
  listen_closed :
      p.listener ≡ listening → p.starter ≢ selecting → Step p (record p { listener = ended })
  send :
      (e : Text)
      → p.listener ≡ sending e
      → p.channel ≡ none
      → Step p (record p { listener = ended; channel = some e })
  cancel : Step p (record p { cancelled = true })
  receive :
      (e : Text)
      → p.starter ≡ selecting
      → p.channel ≡ some e
      → Step p (record p { channel = none; starter = returned (err e) })
  context_done :
      p.starter ≡ selecting → p.cancelled ≡ true → Step p (record p { starter = shutting_down })
  shutdown :
      (r : Result (Unit {0}))
      → p.starter ≡ shutting_down
      → Step p (record p { starter = returned (shutdown_result r) })

pub data Reach (p : Run) : Run → Type 0 where
  here : Reach p p
  next : {q r : Run} → Reach p q → Step q r → Reach p r
