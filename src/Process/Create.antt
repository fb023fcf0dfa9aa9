-- ===== src/Process/Create.antt =====
-- The process that `process_create` of process_manager/process.c makes.
use cocos_os.Base.{ℕ, ◌<◌, ◌≡◌, ◌≢◌, List, [], ◌∷◌, take, add32, sub32, Text, until_nul, ok}
use cocos_os.Memory.{Addr, Heap}
use cocos_os.Memory.Blocks.{Block}
use cocos_os.Memory.Layout.{IsHeap}
use cocos_os.Paging.{Paging, page_directory_bytes}
use cocos_os.Process.Given.{Apart, Own}
use cocos_os.Process.{Process, waiting, Processes, current_pid, process_bytes}

-- Every pid of the list is below the next one.
abbrev pub Below : ℕ → List Process → Type 0
Below n [] = Unit
Below n (p ∷ ps) = (p.pid < n) × Below n ps

abbrev pub NoPid : ℕ → List Process → Type 0
NoPid n [] = Unit
NoPid n (p ∷ ps) = (p.pid ≢ n) × NoPid n ps

-- No two processes have the same pid.
abbrev pub Distinct : List Process → Type 0
Distinct [] = Unit
Distinct (p ∷ ps) = NoPid p.pid ps × Distinct ps

-- The process's structure, directory and stack stand in payloads of a well-formed heap that overlap nothing
-- that was in use before, nor each other, and are long enough.
abbrev pub GivenAt : Heap → List Block → (at directory stack : Addr) → Heap → Type 0
GivenAt t bs at directory stack h =
    (cs : List Block) × IsHeap h cs
    × Own t bs h cs at process_bytes
    × Own t bs h cs directory page_directory_bytes
    × Own t bs h cs stack 0x40000
    × Apart at process_bytes directory page_directory_bytes
    × Apart at process_bytes stack 0x40000
    × Apart directory page_directory_bytes stack 0x40000

-- The new process stands at the head of the list as it was asked for.
abbrev pub Created : Processes → List Block → Addr → Text → ℕ → Processes → Type 0
Created s bs entry_point name priority s' =
    (p : Process) × (s'.process_list ≡ p ∷ s.process_list)
    × (p.pid ≡ s.next_pid)
    × (current_pid s ≡ ok p.ppid)
    × (until_nul p.name ≡ take 31 name)
    × (p.state ≡ waiting)
    × (p.priority ≡ priority)
    × (p.context.eip ≡ entry_point)
    × (p.context.esp ≡ sub32 (add32 p.stack_top 0x40000) 4)
    × (p.context.cr3 ≡ (s'.paging.directories p.page_dir).physical_address)
    × GivenAt s.paging.heap bs p.address p.page_dir p.stack_top s'.paging.heap
