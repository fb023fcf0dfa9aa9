-- ===== src/Ipc/Answers.antt =====
-- The calls of IPC/ipc.c answer as those of a bounded queue of texts do.
use cocos_os.Base.{
  ℕ, ◌≤◌, ◌≡◌, refl, ap, ap₂, ◌∙◌, inl, inr, List, [], ◌∷◌, ◌++◌, leb, if◌then◌else◌, Bool-cases,
  length, take, Text, NulFree, until_nul, ◌-◌,
}
use cocos_os.Ipc.{max_messages, msg_size, Code, done, failed, MessageQueue, ipc_send, ipc_receive}
use cocos_os.Ipc.Refine.{IsQueue, texts, ipc_send_lem, ipc_receive_lem, ipc_receive_none}

-- A call with its argument: the message, or the caller's buffer.
pub data Call : Type 0 where
  send : Text → Call
  receive : List ℕ → Call

-- The result, and after a receipt the text that the caller finds in the buffer.
pub data Answer : Type 0 where
  sent : Code → Answer
  received : Code → Text → Answer

unfoldable pub answer : Call → MessageQueue → Answer × MessageQueue
unfolding ipc_send ipc_receive
answer (send message) q = let (r, q') = ipc_send q message in (sent r, q')
answer (receive buffer) q =
    let (r, filled, q') = ipc_receive q buffer in (received r (until_nul filled), q')

-- The same on the list of the texts that wait.
unfoldable pub answer_texts : Call → List Text → Answer × List Text
answer_texts (send message) ts =
    if leb max_messages (length ts)
    then (sent failed, ts)
    else (sent done, ts ++ (take (msg_size - 1) message ∷ []))
answer_texts (receive buffer) [] = (received failed (until_nul buffer), [])
answer_texts (receive buffer) (t ∷ ts) = (received done t, ts)

-- The answers to calls one after another, by the queue and by the list.
unfoldable pub answers : List Call → MessageQueue → List Answer
unfolding answer
answers [] q = []
answers (c ∷ cs) q = let (a, q') = answer c q in a ∷ answers cs q'

unfoldable pub answers_texts : List Call → List Text → List Answer
unfolding answer_texts
answers_texts [] ts = []
answers_texts (c ∷ cs) ts = let (a, us) = answer_texts c ts in a ∷ answers_texts cs us

-- A message is a text, and a buffer has room for one.
unfoldable pub Fits : Call → Type 0
Fits (send message) = NulFree message
Fits (receive buffer) = msg_size ≤ length buffer

unfoldable pub AllFit : List Call → Type 0
unfolding Fits
AllFit [] = Unit
AllFit (c ∷ cs) = Fits c × AllFit cs

-- A call on the queue is the call on its texts.
abbrev Agrees : Answer × MessageQueue → Answer × List Text → Type 0
Agrees x y = (x.0 ≡ y.0) × (texts x.1 ≡ y.1) × IsQueue x.1

send-Agrees :
    (message : Text) (q : MessageQueue)
    → IsQueue q
    → NulFree message
    → Agrees (answer (send message) q) (answer_texts (send message) (texts q))
unfolding answer answer_texts
send-Agrees message q h free =
    let (r, ts, h') = ipc_send_lem q message h free in
    elim (Bool-cases (leb max_messages (length (texts q)))) [
      | inl full ↦ rw full (
        ap sent (r ∙ ap (λ b. if b then failed else done) full),
        ts ∙ ap (λ b. if b then texts q else texts q ++ (take 127 message ∷ [])) full,
        h',
      )
      | inr room ↦ rw room (
        ap sent (r ∙ ap (λ b. if b then failed else done) room),
        ts ∙ ap (λ b. if b then texts q else texts q ++ (take 127 message ∷ [])) room,
        h',
      )
    ]

receive-Agrees :
    (buffer : List ℕ) (q : MessageQueue) (ts : List Text)
    → texts q ≡ ts
    → IsQueue q
    → msg_size ≤ length buffer
    → Agrees (answer (receive buffer) q) (answer_texts (receive buffer) ts)
unfolding answer answer_texts
receive-Agrees buffer q [] e h room = rw (ipc_receive_none q buffer h e) (refl, e, h)
receive-Agrees buffer q (t ∷ ts) e h room =
    let (r, text, rest, h') = ipc_receive_lem q buffer t ts h room e in
    (ap₂ received r text, rest, h')

answer-Agrees :
    (c : Call) (q : MessageQueue)
    → IsQueue q
    → Fits c
    → Agrees (answer c q) (answer_texts c (texts q))
unfolding Fits
answer-Agrees (send message) q h fits = send-Agrees message q h fits
answer-Agrees (receive buffer) q h fits = receive-Agrees buffer q (texts q) refl h fits

-- From a well-formed queue, every sequence of calls of `ipc_send`, with messages without a NUL, and of
-- `ipc_receive`, with buffers of at least 128 bytes, gets the answers that a list of texts gives, in the codes and in what the
-- buffers then hold: a message is appended, cut to 127 bytes, and refused when twenty wait; the oldest
-- is received; and when none waits the receipt fails and the buffer's text stays.
pub answers-answers_texts :
    (cs : List Call) (q : MessageQueue)
    → IsQueue q
    → AllFit cs
    → answers cs q ≡ answers_texts cs (texts q)
unfolding answers answers_texts AllFit
answers-answers_texts [] q h fits = refl
answers-answers_texts (c ∷ cs) q h fits =
    let (first, rest, h') = answer-Agrees c q h fits.0 in
    ap₂ ◌∷◌ first (answers-answers_texts cs (answer c q).1 h' fits.1 ∙ ap (answers_texts cs) rest)
