-- ===== src/Ipc.antt =====
-- IPC/ipc.c: a queue of twenty messages in buffers of 128 bytes.
pub mod Answers
pub mod Refine
use cocos_os.Base.{
  ℕ, ◌+◌, ◌-◌, ◌%◌, List, leb, ◌==◌, if◌then◌else◌, update, set, Text, until_nul, strncpy,
}

abbrev pub max_messages : ℕ
max_messages = 20

abbrev pub msg_size : ℕ
msg_size = 128

-- The results 0 and -1.
pub data Code : Type 0 where
  done failed : Code

-- `message_queue_t`
pub record MessageQueue : Type 0 where
  pub msg : ℕ → List ℕ
  pub head : ℕ
  pub tail : ℕ
  pub count : ℕ

unfoldable pub ipc_send : MessageQueue → Text → Code × MessageQueue
unfolding strncpy
ipc_send q message =
    if leb max_messages q.count
    then (failed, q)
    else (let copied = strncpy (msg_size - 1) message (q.msg q.tail) in
        let closed = set copied (msg_size - 1) 0 in
        (
          done,
          record q {
            msg = update q.msg q.tail closed;
            tail = (q.tail + 1) % max_messages;
            count = q.count + 1;
          },
        ))

-- The second part is what the caller's buffer holds afterwards.
unfoldable pub ipc_receive : MessageQueue → List ℕ → Code × List ℕ × MessageQueue
unfolding strncpy
ipc_receive q buffer = if q.count == 0 then (failed, buffer, q) else (
  done,
  strncpy msg_size (until_nul (q.msg q.head)) buffer,
  record q { head = (q.head + 1) % max_messages; count = q.count - 1 },
)
