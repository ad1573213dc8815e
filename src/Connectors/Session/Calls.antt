-- ===== src/Connectors/Session/Calls.antt =====
-- backend/app/connectors/runtime.py: the calls of a session in any order, as its client and the loop
-- of `run` make them.
use carhibou.Prelude.{ℕ, ◌≡◌, Bool, Option, some, String, List, [], ◌∷◌, ◌++◌}
use carhibou.Prelude.Float.{Float}
use carhibou.Prelude.Math.{Math, Texts}
use carhibou.Prelude.Text.{Characters}
use carhibou.Prelude.Time.{Instant}
use carhibou.Telemetry.Values.Coercion.{Parsing}
use carhibou.Connectors.Session.{
  SessionDefinition, SessionState, Store, StatusWrite, new_session, write_status, flush_status,
}
use carhibou.Connectors.Session.Messages.{handle_message}
use carhibou.Connectors.Session.Flush.{flush}
use carhibou.Connectors.Session.Kept.{
  left_by, write_status-keeps, flush_status-keeps, handle_message-keeps, flush-keeps,
}
use carhibou.Connectors.Session.Buffer.{
  IsBuffered, IsBuffered-OfBuffer, buffered-IsBuffered, emptied-IsBuffered, new_session-IsBuffered,
  message-IsMapped,
}
use carhibou.Connectors.Session.Heard.{
  Message, IsHeard, IsHeard-OfBuffer, buffered-IsHeard, ignored-IsHeard, emptied-IsHeard,
}

module _ {C F : Type 0} ⦃ops : Float F⦄ ⦃fs : Math F⦄ ⦃texts : Texts String⦄ ⦃chars : Characters⦄
    ⦃ps : Parsing F⦄ (decimal : ℕ → String) (d : SessionDefinition F) where
  -- One call, with the messages that it is given. Between two calls others may change the tables, and
  -- `run` starts a new boot.
  pub data Step (p : SessionState F × Store C F)
      : List Message → SessionState F × Store C F → Type 0 where
    handles :
        (topic : String) (payload : Option String) (mono : ℕ) (now : Instant)
        {q : SessionState F × Store C F}
        → handle_message decimal d topic payload mono now p ≡ some q
        → Step p (record { topic = topic; payload = payload; at = now } ∷ []) q
    flushes :
        (force : Bool) (mono : ℕ) (now : Instant) (id : String)
        → Step p [] (left_by (flush decimal d force mono now id p))
    flushes_status :
        (force : Bool) (mono : ℕ) (now : Instant) → Step p [] (flush_status d force mono now p)
    writes_status :
        (w : StatusWrite) (mono : ℕ) (now : Instant) → Step p [] (write_status d w mono now p)
    boots : (boot_id : String) → Step p [] (record p.0 { boot_id = boot_id; sequence = 0 }, p.1)
    others : (store : Store C F) → Step p [] (p.0, store)

  -- Calls in any order, with their messages, the last one first.
  pub data Reach (p : SessionState F × Store C F)
      : List Message → SessionState F × Store C F → Type 0 where
    here : Reach p [] p
    next :
        {log heard : List Message} {q r : SessionState F × Store C F}
        → Reach p log q
        → Step q heard r
        → Reach p (heard ++ log) r

  Step-IsBuffered :
      {p q : SessionState F × Store C F} {heard : List Message}
      → Step p heard q
      → IsBuffered p.0
      → IsBuffered q.0
  Step-IsBuffered {p} (handles topic payload mono now e) h =
      handle_message-keeps (λ (s : SessionState F). IsBuffered s) IsBuffered-OfBuffer decimal d
        topic payload mono now p e (λ ignored. h)
        (λ key r e own mapped.
          buffered-IsBuffered now mono r p.0
            (message-IsMapped d.mapping_profile key payload r mapped) h)
  Step-IsBuffered {p} (flushes force mono now id) h =
      flush-keeps (λ (s : SessionState F). IsBuffered s) IsBuffered-OfBuffer emptied-IsBuffered
        decimal d force mono now id p h
  Step-IsBuffered {p} (flushes_status force mono now) h =
      flush_status-keeps (λ (s : SessionState F). IsBuffered s) IsBuffered-OfBuffer d force mono now
        p h
  Step-IsBuffered {p} (writes_status w mono now) h =
      write_status-keeps (λ (s : SessionState F). IsBuffered s) IsBuffered-OfBuffer d w mono now p h
  Step-IsBuffered {p} (boots boot_id) h =
      let s = p.0 in
      IsBuffered-OfBuffer s boot_id 0 s.last_status_write s.mapping_errors s.pending_message
        s.pending_error h
  Step-IsBuffered {p} (others store) h = h

  Step-IsHeard :
      {p q : SessionState F × Store C F} {heard : List Message} (log : List Message)
      → Step p heard q
      → IsHeard d log p.0
      → IsHeard d (heard ++ log) q.0
  Step-IsHeard {p} log (handles topic payload mono now e) h =
      let m : Message = record { topic = topic; payload = payload; at = now } in
      handle_message-keeps (IsHeard d (m ∷ log)) (IsHeard-OfBuffer d (m ∷ log)) decimal d topic
        payload mono now p e
        (λ ignored.
          ignored-IsHeard d m log p.0
            (λ r maps. let (key, found, own, mapped) = maps in cc (own, ignored key found)) h)
        (λ key r found own mapped. buffered-IsHeard d m mono r log p.0 (key, found, own, mapped) h)
  Step-IsHeard {p} log (flushes force mono now id) h =
      flush-keeps (IsHeard d log) (IsHeard-OfBuffer d log) (emptied-IsHeard d log) decimal d force
        mono now id p h
  Step-IsHeard {p} log (flushes_status force mono now) h =
      flush_status-keeps (IsHeard d log) (IsHeard-OfBuffer d log) d force mono now p h
  Step-IsHeard {p} log (writes_status w mono now) h =
      write_status-keeps (IsHeard d log) (IsHeard-OfBuffer d log) d w mono now p h
  Step-IsHeard {p} log (boots boot_id) h =
      let s = p.0 in
      IsHeard-OfBuffer d log s boot_id 0 s.last_status_write s.mapping_errors s.pending_message
        s.pending_error h
  Step-IsHeard log (others store) h = h

  -- Whatever calls a new session has had, in any order and with any changes of the tables by others
  -- between them: outside a window the buffer is empty, and the positions that it holds lie in the
  -- ranges of their fields. Every metric in it has the value that the last message to give that
  -- metric gave it, and the time of that message; every field of the position has the value of the
  -- last message to give that field, and the position the time of the last message to give any.
  pub Reach-IsBuffered :
      (boot_id : String) (store : Store C F) {log : List Message} {q : SessionState F × Store C F}
      → Reach (new_session boot_id, store) log q
      → IsBuffered q.0 × IsHeard d log q.0
  Reach-IsBuffered boot_id store here =
      (new_session-IsBuffered boot_id, emptied-IsHeard d [] (new_session boot_id))
  Reach-IsBuffered boot_id store (next steps step) =
      let (b, h) = Reach-IsBuffered boot_id store steps in
      (Step-IsBuffered step b, Step-IsHeard _ step h)
