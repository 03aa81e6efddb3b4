-- ===== src/Node/Origin/Chats.antt =====
-- The chats of a running node: who said what is in them.
use p2p_messenger.Prelude.{ℕ, ◌≡◌, ap, sym, ◌∙◌, some, List, [], ◌∷◌, All, All-append, All-map}
use p2p_messenger.Prelude.Bytes.{Bytes}
use p2p_messenger.External.{OpenDht, IsLawfulDht, Json, Net}
use p2p_messenger.ChatHistory
use p2p_messenger.ChatHistory.{Line}
use p2p_messenger.ChatHistory.Log.{Entries, lines_of, lines_of-All, view_lem, get-replay}
use p2p_messenger.Node.State.{Config, Node, Endpoint}
use p2p_messenger.Node.Receiver.{datagram}
use p2p_messenger.Node.Messenger.{initial_node, send_message, receive, get}
use p2p_messenger.Node.Keyed.Steps.{Step, sends, receives, Reach, next}
use p2p_messenger.Node.Origin.Datagram.{Authored}
use p2p_messenger.Node.Origin.Runs.{Log, empty, silent, wrote, heard, Reach-Log}

module _ (D : OpenDht) (J : Json) (N : Net) where
  -- What a run tells of a line: the text of a task for the chat, under the node's own login, or a
  -- datagram that says it under a signature of the key of the chat.
  pub data Told {c : Config D} {s : Node D N}
      : (t : Node D N) → Reach D J N c s t → D.InfoHash → Line → Type 0 where
    asked :
        {t : Node D N} {w : Reach D J N c s t} (login : Bytes) (id : D.InfoHash) (text : Bytes)
        → Told
            (send_message D J N c login id text t).1
            (next w (sends login id text))
            id
            (c.my_login, text)
    delivered :
        {t : Node D N} {w : Reach D J N c s t} (available : ℕ) (b : Bytes) (remote : Endpoint N)
        (id : D.InfoHash) (line : Line)
        → Authored D J N c b id line
        → Told
            (receive D J N c (datagram available b remote) t).1
            (next w (receives (datagram available b remote)))
            id
            line
    before :
        {t u : Node D N} {w : Reach D J N c s t} {id : D.InfoHash} {line : Line}
        → Told t w id line
        → (step : Step D J N c t u) → Told u (next w step) id line

  Told-All :
      {c : Config D} {s t : Node D N} {w : Reach D J N c s t} {log : Entries D}
      → Log D J N t w log
      → All (λ entry. Told t w entry.0 entry.1) log
  Told-All empty = tt
  Told-All (silent {log} l step) = All-map _ _ log (λ entry told. before told step) (Told-All l)
  Told-All {c} (wrote {log} l login id text) =
      All-append _ log ((id, (c.my_login, text)) ∷ [])
        (All-map _ _ log (λ entry told. before told (sends login id text)) (Told-All l))
        (asked login id text, tt)
  Told-All (heard {log} l available b remote id line authored) =
      All-append _ log ((id, line) ∷ [])
        (All-map _ _ log (λ entry told. before told (receives (datagram available b remote)))
          (Told-All l))
        (delivered available b remote id line authored, tt)

module _ (D : OpenDht) (J : Json) (LD : IsLawfulDht D) (N : Net) where
  -- Whatever happened to a node since its start, each line of each chat is there because a task of
  -- `send_message` for the id of the chat had that text, and then it stands under the node's own
  -- login; or because a datagram came whose message says it, for a key of which the id is made, and
  -- the signature of the datagram is good for that key.
  pub get-Told :
      {c : Config D} (port : ℕ) (ip : Bytes) (bootstrap_port : ℕ) {s : Node D N}
      (w : Reach D J N c (initial_node D N port ip bootstrap_port) s) (id : D.InfoHash)
      (lines : List Line)
      → get D N id s ≡ some lines
      → All (Told D J N s w id) lines
  unfolding get
  get-Told port ip bootstrap_port {s} w id lines e =
      let (log, l, written) = Reach-Log D J LD N port ip bootstrap_port w in
      let same : lines ≡ lines_of D id log =
        view_lem D (lines_of D id log)
          (sym (ap (ChatHistory.get D id) written ∙ get-replay D log id) ∙ e) in
      rw same (lines_of-All D (Told D J N s w) id log (Told-All D J N l))
