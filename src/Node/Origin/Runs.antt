-- ===== src/Node/Origin/Runs.antt =====
-- The history of a running node of p2p_messenger_impl.cpp: which events wrote it.
use p2p_messenger.Prelude.{ℕ, ◌≡◌, refl, ◌∙◌, Bool, List, [], ◌∷◌, ◌++◌, inl, inr, bytes_eq}
use p2p_messenger.Prelude.Bytes.{Bytes}
use p2p_messenger.Prelude.Outcome.{ok}
use p2p_messenger.Prelude.Rules.{Keeps, Keeps->>=, Keeps-lift, Keeps-if}
use p2p_messenger.External.{OpenDht, IsLawfulDht, Json, Net}
use p2p_messenger.ChatHistory.{ChatHistory, Line}
use p2p_messenger.ChatHistory
use p2p_messenger.ChatHistory.Log.{Entries, replay, replay_last}
use p2p_messenger.Prelude.Program.{modify}
use p2p_messenger.Resolver.Dht
use p2p_messenger.Resolver.Dht.{DhtIpResolver, put_signed}
use p2p_messenger.Node.State.{Config, Node, Endpoint}
use p2p_messenger.Node.HolePuncher.{hole_punch, on_timer}
use p2p_messenger.Node.Receiver.{Event, failed, unread, datagram}
use p2p_messenger.Node.Messenger.{
  initial_node, start, send_message, receive, listen, on_found_values,
}
use p2p_messenger.Node.Keyed.{NodeIsKeyed}
use p2p_messenger.Node.Keyed.Steps.{
  Step, starts, sends, receives, listens, finds, punches, republishes, Reach, here, next,
  Reach-NodeIsKeyed,
}
use p2p_messenger.Node.Origin.{HistoryIs, Extends}
use p2p_messenger.Node.Origin.Datagram.{
  Authored, HeardAs, receive-Extends, Keeps-send_to, Keeps-start_hole_punching,
}
use p2p_messenger.Node.Origin.Task.{wrote_as, send_message-Extends}

module _ (D : OpenDht) (J : Json) (N : Net) where
  -- The log of a run: each task of `send_message` and each datagram enters at most one line, at the
  -- end; nothing else enters any.
  pub data Log {c : Config D} {s : Node D N}
      : (t : Node D N) → Reach D J N c s t → Entries D → Type 0 where
    empty : Log s here []
    silent :
        {t u : Node D N} {w : Reach D J N c s t} {log : Entries D}
        → Log t w log
        → (step : Step D J N c t u) → Log u (next w step) log
    wrote :
        {t : Node D N} {w : Reach D J N c s t} {log : Entries D}
        → Log t w log
        → (login : Bytes) (id : D.InfoHash) (text : Bytes)
        → Log
            (send_message D J N c login id text t).1
            (next w (sends login id text))
            (log ++ ((id, (c.my_login, text)) ∷ []))
    heard :
        {t : Node D N} {w : Reach D J N c s t} {log : Entries D}
        → Log t w log
        → (available : ℕ) (b : Bytes) (remote : Endpoint N) (id : D.InfoHash) (line : Line)
        → Authored D J N c b id line
        → Log
            (receive D J N c (datagram available b remote) t).1
            (next w (receives (datagram available b remote)))
            (log ++ ((id, line) ∷ []))

  Keeps-dht :
      (f : DhtIpResolver D → DhtIpResolver D) (h : ChatHistory D)
      → Keeps (HistoryIs D N h) (modify λ s. record s { dht = f s.dht })
  Keeps-dht f h = record { keeps = λ s same. same }

  pub Keeps-start :
      (c : Config D) (token : ℕ) (h : ChatHistory D) → Keeps (HistoryIs D N h) (start D N c token)
  unfolding start
  Keeps-start c token h = Keeps->>= (Keeps-dht (put_signed D c.my_login c.my_ip c.my_port) h) λ _.
      Keeps->>= (Keeps-dht (Dht.listen D c.my_login token) h) λ _.
        Keeps-if (bytes_eq.beq c.relay_node_ip []) (Keeps-lift (ok tt))
          (Keeps-start_hole_punching D N c.punch_buffer c.relay_node_ip c.relay_node_port h)

  pub history-on_timer :
      (b : Bytes) (ec : Bool) (s : Node D N) → (on_timer D N b ec s).1.history ≡ s.history
  unfolding on_timer hole_punch
  history-on_timer b ec s = on_timers s.timers refl
    where
      on_timers :
          (timers : List (Endpoint N))
          → s.timers ≡ timers
          → (on_timer D N b ec s).1.history ≡ s.history
      on_timers [] e = rw (e, on_timer)
      on_timers (endpoint ∷ rest) e =
          rw (e, on_timer)
            ((Keeps->>= (Keeps-send_to D N b endpoint s.history)
                λ _. record { keeps = λ t same. same }).keeps
              (record s { timers = rest }) refl)

  -- A log, and the history that it gives.
  abbrev IsWritten : {c : Config D} {s t : Node D N} → Reach D J N c s t → Type 0
  IsWritten {t} w = (log : Entries D) × Log t w log × (t.history ≡ replay D log [])

  silent-IsWritten :
      {c : Config D} {s t u : Node D N} {w : Reach D J N c s t} (step : Step D J N c t u)
      → u.history ≡ t.history
      → IsWritten w
      → IsWritten (next w step)
  silent-IsWritten step same (log, l, e) = (log, silent l step, same ∙ e)

  written :
      (log : Entries D) (id : D.InfoHash) (line : Line) {h h' : ChatHistory D}
      → h ≡ replay D log []
      → h' ≡ ChatHistory.append D id line.0 line.1 h
      → h' ≡ replay D (log ++ ((id, line) ∷ [])) []
  written log id line e grown = rw (grown, e, replay_last D log id line [])

module _ (D : OpenDht) (J : Json) (LD : IsLawfulDht D) (N : Net) where
  sends-IsWritten :
      {c : Config D} {s t : Node D N} {w : Reach D J N c s t} (login : Bytes) (id : D.InfoHash)
      (text : Bytes)
      → NodeIsKeyed D N t
      → IsWritten D J N w
      → IsWritten D J N (next w (sends login id text))
  sends-IsWritten {c} {t} login id text v (log, l, e) =
      elim (send_message-Extends D J LD N c login id text t v) [
        | inl same ↦ silent-IsWritten D J N (sends login id text) same (log, l, e)
        | inr (j, line, wrote_as, grown) ↦ (
          log ++ ((id, (c.my_login, text)) ∷ []),
          wrote l login id text,
          written D J N log id (c.my_login, text) e grown,
        )
      ]

  receives-IsWritten :
      {c : Config D} {s t : Node D N} {w : Reach D J N c s t} (event : Event D J N)
      → IsWritten D J N w
      → IsWritten D J N (next w (receives event))
  receives-IsWritten {c} {t} {w} event (log, l, e) =
      of_event event (receive-Extends D J N c event t)
    where
      of_event :
          (event : Event D J N)
          → Extends D N (HeardAs D J N c event) t.history (receive D J N c event t).1.history
          → IsWritten D J N (next w (receives event))
      of_event event (inl same) = silent-IsWritten D J N (receives event) same (log, l, e)
      of_event (datagram available b remote) (inr (id, line, authored, grown)) = (
        log ++ ((id, line) ∷ []),
        heard l available b remote id line authored,
        written D J N log id line e grown,
      )
      of_event failed (inr (id, line, authored, grown)) = absurd authored
      of_event unread (inr (id, line, authored, grown)) = absurd authored

  -- Where the node comes to from its start by any run, its history is what the run's log replays
  -- to: each line is the text of one task of `send_message`, or what one datagram says under a
  -- signature that is good for the key of the chat; each such event gives at most one line, and
  -- they stand in the order of the events.
  pub Reach-Log :
      {c : Config D} (port : ℕ) (ip : Bytes) (bootstrap_port : ℕ) {s : Node D N}
      (w : Reach D J N c (initial_node D N port ip bootstrap_port) s)
      → (log : Entries D) × Log D J N s w log × (s.history ≡ replay D log [])
  unfolding initial_node on_found_values listen replay
  Reach-Log port ip bootstrap_port here = ([], empty, refl)
  Reach-Log {c} port ip bootstrap_port (next {t} w (starts token)) =
      silent-IsWritten D J N (starts token) ((Keeps-start D J N c token t.history).keeps t refl)
        (Reach-Log port ip bootstrap_port w)
  Reach-Log port ip bootstrap_port (next w (sends login id text)) =
      sends-IsWritten login id text (Reach-NodeIsKeyed D J N port ip bootstrap_port w)
        (Reach-Log port ip bootstrap_port w)
  Reach-Log port ip bootstrap_port (next w (receives event)) =
      receives-IsWritten event (Reach-Log port ip bootstrap_port w)
  Reach-Log port ip bootstrap_port (next w (listens login token)) =
      silent-IsWritten D J N (listens login token) refl (Reach-Log port ip bootstrap_port w)
  Reach-Log port ip bootstrap_port (next w (finds login values expired)) =
      silent-IsWritten D J N (finds login values expired) refl (Reach-Log port ip bootstrap_port w)
  Reach-Log {c} port ip bootstrap_port (next {t} w (punches ec)) =
      silent-IsWritten D J N (punches ec) (history-on_timer D J N c.punch_buffer ec t)
        (Reach-Log port ip bootstrap_port w)
  Reach-Log port ip bootstrap_port (next w (republishes ec)) =
      silent-IsWritten D J N (republishes ec) refl (Reach-Log port ip bootstrap_port w)
