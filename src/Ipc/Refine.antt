-- ===== src/Ipc/Refine.antt =====
-- IPC/ipc.c behaves as a bounded queue of texts.
use cocos_os.Base.{
  ℕ, suc, ◌+◌, ◌-◌, ◌%◌, ◌<◌, ◌≤◌, ◌≡◌, ◌≢◌, refl, sym, ap, ◌∙◌, inl, inr, List, [], ◌∷◌, ◌++◌, map,
  arith, leb, ◌==◌, if◌then◌else◌, length, take, set, Bool-cases, ==_iff, Text, NulFree, until_nul,
  strncpy, until_nul-NulFree, until_nul-strncpy, until_nul-strncpy_short, length-strncpy,
  length-set, update, items, length-items, items-update, items_of_pos, length-map, length-take,
}
use mathlib.Core.List.{map-append}
use cocos_os.Ipc.{max_messages, msg_size, done, failed, MessageQueue, ipc_send, ipc_receive}

-- The indices are in range and agree with the count, and every buffer has 128 bytes and holds a
-- text with its NUL.
pub record IsQueue (q : MessageQueue) : Type 0 where
  pub head_in : q.head < max_messages
  pub count_in : q.count ≤ max_messages
  pub tail_at : q.tail ≡ (q.head + q.count) % max_messages
  pub buffers : (i : ℕ) → length (q.msg i) ≡ msg_size
  pub closed : (i : ℕ) → length (until_nul (q.msg i)) < msg_size

-- The texts that wait, oldest first.
abbrev pub texts : MessageQueue → List Text
texts q = map until_nul (items q.msg max_messages q.head q.count)

module _ (q : MessageQueue) (message : Text) (h : IsQueue q) where
  -- The buffer that `ipc_send` fills.
  abbrev filled : List ℕ
  filled = set (strncpy (msg_size - 1) message (q.msg q.tail)) (msg_size - 1) 0

  length-filled : length filled ≡ msg_size
  length-filled =
      length-set (strncpy (msg_size - 1) message (q.msg q.tail)) (msg_size - 1) 0
      ∙ length-strncpy (msg_size - 1) message (q.msg q.tail)
      ∙ h.buffers q.tail

  sent_texts :
      NulFree message
      → q.count < max_messages
      → map until_nul (items (update q.msg q.tail filled) max_messages q.head (suc q.count))
        ≡ texts q ++ (take (msg_size - 1) message ∷ [])
  sent_texts clean room =
      ap (map until_nul)
        (items-update q.msg max_messages filled q.head q.count q.tail h.head_in room h.tail_at)
      ∙ map-append until_nul (items q.msg max_messages q.head q.count) (filled ∷ [])
      ∙ ap (λ t. texts q ++ (t ∷ []))
          (until_nul-strncpy (msg_size - 1) message (q.msg q.tail) clean
            (omega (arith, h.buffers q.tail)))

  buffers_filled : (i : ℕ) → length (update q.msg q.tail filled i) ≡ msg_size
  buffers_filled i = elim (Bool-cases (i == q.tail)) [
    | inl p ↦ rw p length-filled
    | inr p ↦ rw p (h.buffers i)
  ]

  closed_filled :
      NulFree message → (i : ℕ) → length (until_nul (update q.msg q.tail filled i)) < msg_size
  closed_filled clean i = elim (Bool-cases (i == q.tail)) [
    | inl p ↦ rw p (
        omega (
          arith,
          ap length (
              until_nul-strncpy (msg_size - 1) message (q.msg q.tail) clean
                (omega (arith, h.buffers q.tail))),
          length-take (msg_size - 1) message,
        ))
    | inr p ↦ rw p (h.closed i)
  ]

-- On a well-formed queue and for a message without a NUL, `ipc_send` fails and keeps the texts
-- when twenty wait; otherwise it succeeds and appends the first 127 bytes of the message; the
-- queue stays well formed.
pub ipc_send_lem :
    (q : MessageQueue) (message : Text)
    → IsQueue q
    → NulFree message
    → ((ipc_send q message).0 ≡ (if leb 20 (length (texts q)) then failed else done))
      × (texts (ipc_send q message).1
          ≡ (if leb 20 (length (texts q)) then texts q else texts q ++ (take 127 message ∷ [])))
      × IsQueue (ipc_send q message).1
unfolding ipc_send
ipc_send_lem q message h clean =
    let count =
      length-map (items q.msg max_messages q.head q.count) until_nul
      ∙ length-items q.msg max_messages q.head q.count in
    elim (Bool-cases (leb max_messages q.count)) [
      | inl p ↦ rw (count, p) (refl, refl, h)
      | inr p ↦
          (let room : q.count < max_messages = ground arith in
            let next : q.count + 1 ≡ suc q.count = omega arith in
            rw (count, p)
              (
                refl,
                rw next (sent_texts q message h clean room),
                record {
                  head_in = h.head_in;
                  count_in = omega arith;
                  tail_at = omega (arith, h.tail_at);
                  buffers = buffers_filled q message h;
                  closed = closed_filled q message h clean;
                },
              ))
    ]

head_eq : {t u : Text} {ts us : List Text} → t ∷ ts ≡ u ∷ us → t ≡ u
head_eq e = cc

tail_eq : {t u : Text} {ts us : List Text} → t ∷ ts ≡ u ∷ us → ts ≡ us
tail_eq e = cc

module _ (q : MessageQueue) (buffer : List ℕ) (h : IsQueue q) where
  none_waits : q.count ≡ 0 → texts q ≡ []
  none_waits e = ap (λ n. map until_nul (items q.msg max_messages q.head n)) e

  one_waits :
      q.count ≢ 0
      → texts q
        ≡ until_nul (q.msg q.head)
          ∷ map until_nul (items q.msg max_messages ((q.head + 1) % max_messages) (q.count - 1))
  one_waits ne = ap (map until_nul) (items_of_pos q.msg max_messages q.head q.count (omega arith))

  received :
      q.count ≢ 0 → IsQueue (record q { head = (q.head + 1) % max_messages; count = q.count - 1 })
  received ne = record {
    head_in = omega arith;
    count_in = omega (arith, h.count_in);
    tail_at = omega (arith, h.tail_at, h.count_in);
    buffers = h.buffers;
    closed = h.closed;
  }

-- When a text waits in a well-formed queue, `ipc_receive` succeeds, takes the oldest one off,
-- leaves it in the caller's buffer of at least 128 bytes, and keeps the queue well formed.
pub ipc_receive_lem :
    (q : MessageQueue) (buffer : List ℕ) (t : Text) (ts : List Text)
    → IsQueue q
    → 128 ≤ length buffer
    → texts q ≡ t ∷ ts
    → ((ipc_receive q buffer).0 ≡ done)
      × (until_nul (ipc_receive q buffer).1 ≡ t)
      × (texts (ipc_receive q buffer).2 ≡ ts)
      × IsQueue (ipc_receive q buffer).2
unfolding ipc_receive
ipc_receive_lem q buffer t ts h room e = elim (Bool-cases (q.count == 0)) [
  | inl p ↦ cc (sym e ∙ none_waits q buffer h ((==_iff q.count 0).0 p))
  | inr p ↦
      (let first = sym (one_waits q buffer h (ground arith)) ∙ e in
        rw p (
          refl,
          until_nul-strncpy_short msg_size (until_nul (q.msg q.head)) buffer
                (until_nul-NulFree (q.msg q.head)) (h.closed q.head) room
              ∙ head_eq first,
          tail_eq first,
          received q buffer h (ground arith),
        ))
]

-- When no text waits in a well-formed queue, `ipc_receive` fails, changing neither buffer nor
-- queue.
pub ipc_receive_none :
    (q : MessageQueue) (buffer : List ℕ)
    → IsQueue q
    → texts q ≡ []
    → ipc_receive q buffer ≡ (failed, buffer, q)
unfolding ipc_receive
ipc_receive_none q buffer h e = elim (Bool-cases (q.count == 0)) [
  | inl p ↦ rw p
  | inr p ↦ cc (sym e ∙ one_waits q buffer h (ground arith))
]
