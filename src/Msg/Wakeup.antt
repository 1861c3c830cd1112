-- ===== src/Msg/Wakeup.antt =====
-- Waking receivers: a message that is sent reaches a tracee that waits for it, and IPC_RMID wakes all
-- that wait.
use proot.Prelude.{
  e2big, ℕ, ◌≡◌, refl, ap, ◌∙◌, inl, inr, Bool, true, false, ◌&&◌, List, [], ◌∷◌, ◌++◌, none, some,
  get_elem?, set, arith, All, Bool-cases, Result, ok, err, eagain, einval, get_elem?-set_self,
  length-set, length, ◌<◌,
}
use proot.Sysvipc.{
  update_config, not_chained, WaitState, signaled_ppoll, restarted_into_ppoll_canceled,
  check_object, has_flag, Config, WaitReason, wait_queue_recv, not_waiting, wait_semop,
  wait_shmat_helper_busy, msgrcv_retry_state, lookup_ipc_object, wake_tracee, without_ipc_64,
}
use proot.Sysvipc.Lookup.{lookup_ok, lookup-set_invalid, checked}
use proot.Sysvipc.Wake.{is_waiting, CanWake, wake_all-Removed, Removed, AllTwo}
use proot.Msg.{Item, Queue, queue_object, Memory, Ipc, msg_copy, receives_on, is_msgrcv}
use proot.Msg.Receive.{
  retry_queue, store, is_not_waiting, takes, bad_arguments, delivered_size, do_msgrcv, is_retry,
  msgrcv_retry, end_retry,
}
use proot.Msg.Calls.{
  do_msgctl, append_item, msgsnd, read_item, wake_receiver, msgctl, removed_queue,
}
use proot.Msg.First.{do_msgrcv-too_big, NoneTaken, Writes, do_msgrcv-first, taken, append_nil}

is_msgrcv-is_waiting : (r : WaitReason) → is_msgrcv r ≡ true → is_waiting r ≡ true
is_msgrcv-is_waiting not_waiting h = cc (h)
is_msgrcv-is_waiting wait_queue_recv h = refl
is_msgrcv-is_waiting wait_semop h = refl
is_msgrcv-is_waiting wait_shmat_helper_busy h = refl

pub receives_on-is_waiting :
    (index : ℕ) (c : Config) → receives_on index c ≡ true → is_waiting c.wait_reason ≡ true
receives_on-is_waiting index c h = is_msgrcv-is_waiting c.wait_reason (ground arith)

-- A retry whose queue has become invalid runs into a failed assertion.
retry-removed :
    {M : Type 0} (mem : Memory M) (time : ℕ) (ipc : Ipc M) (c : Config) (q : Queue)
    → get_elem? ipc.queues c.waiting_object_index ≡ some q
    → q.valid ≡ false
    → c.status_after_wait ≡ err eagain
    → msgrcv_retry mem time ipc c ≡ none
unfolding msgrcv_retry retry_queue
retry-removed mem time ipc c q e v s = elim (Bool-cases (is_retry c.chain_state)) [
  | inl r ↦ rw (msgrcv_retry, r, s, e, retry_queue, v) refl
  | inr r ↦ rw (msgrcv_retry, r) refl
]

-- IPC_RMID on an id that the look-up finds, where those that wait can be woken: it succeeds, exactly
-- the tracees that wait for a message of the queue are woken, with EIDRM, and the id is not found
-- any more. A tracee that a message has woken before, and that has not tried again by then, runs
-- into a failed assertion when it does.
pub msgctl-rmid :
    {M : Type 0} (mem : Memory M) (ipc : Ipc M) (pid id cmd buf i : ℕ) (q : Queue)
    → lookup_ipc_object id ipc.queues ≡ ok (i, q)
    → without_ipc_64 cmd ≡ 0
    → All CanWake ipc.configs
    → (ipc' : Ipc M) × (msgctl mem ipc pid id cmd buf ≡ some (ok 0, ipc'))
      × AllTwo (Removed (receives_on i)) ipc.configs ipc'.configs
      × (lookup_ipc_object id ipc'.queues ≡ err einval)
      × ((time : ℕ) (c : Config)
          → c.waiting_object_index ≡ i
          → c.status_after_wait ≡ err eagain
          → msgrcv_retry mem time ipc' c ≡ none)
unfolding msgctl do_msgctl
msgctl-rmid mem ipc pid id cmd buf i q h c w =
    let woken = wake_all-Removed (receives_on i) ipc.configs (receives_on-is_waiting i) w in
    let facts = lookup_ok id ipc.queues i q h in
    (
      record ipc { queues = set ipc.queues i (removed_queue q); configs = woken.0 },
      rw (msgctl, h, do_msgctl, c, woken.1) refl,
      woken.2,
      lookup-set_invalid id ipc.queues i (removed_queue q) facts.1 facts.2 refl,
      λ time d a s.
          retry-removed mem time _ d (removed_queue q)
            (rw a (get_elem?-set_self ipc.queues i (removed_queue q) facts.2)) refl s,
    )

-- A tracee that a message has woken, with the state and the signal that the waking left.
abbrev pub retrying : Config → WaitState → Bool → Config
retrying c s b = record c {
  wait_reason = not_waiting;
  wait_state = s;
  chain_state = msgrcv_retry_state;
  status_after_wait = err eagain;
  sigstopped = b;
}

wake_tracee-retrying :
    (c : Config)
    → is_waiting c.wait_reason ≡ true
    → CanWake c
    → (s : WaitState) × (b : Bool) × (wake_tracee
          (record c { chain_state = msgrcv_retry_state })
          (err eagain)
        ≡ some (retrying c s b))
unfolding wake_tracee
wake_tracee-retrying c r h = elim (h r) [
  | inl e ↦ (signaled_ppoll, true, ground arith)
  | inr e ↦ (restarted_into_ppoll_canceled, c.sigstopped, ground arith)
]

-- A tracee that waits for a message of the queue and takes this one.
abbrev pub is_ready : ℕ → Item → Config → Bool
is_ready index item c = receives_on index c && takes c item

wake_receiver-first :
    (index : ℕ) (item : Item) (before after : List Config) (c : Config)
    → All (λ d. is_ready index item d ≡ false) before
    → receives_on index c ≡ true
    → takes c item ≡ true
    → CanWake c
    → (s : WaitState) × (b : Bool) × (wake_receiver index item (before ++ c ∷ after)
        ≡ some (before ++ retrying c s b ∷ after))
unfolding wake_receiver
wake_receiver-first index item [] after c n r t h =
    let w = wake_tracee-retrying c (receives_on-is_waiting index c r) h in
    (w.0, w.1, rw (r, t, w.2) refl)
wake_receiver-first index item (d ∷ l) after c n r t h =
    let w = wake_receiver-first index item l after c n.1 r t h in (w.0, w.1, rw (n.0, w.2) refl)

lookup-valid :
    (id : ℕ) (l : List Queue) (i : ℕ) (q : Queue)
    → lookup_ipc_object id l ≡ ok (i, q)
    → q.valid ≡ true
lookup-valid id l i q h = let k = checked id l i q h in unfold check_object in ground arith

-- A retry that is not to wait again returns what receiving gives.
retry-receives :
    {M : Type 0} (mem : Memory M) (time : ℕ) (ipc : Ipc M) (d : Config) (q q' : Queue)
    (status : Result ℕ) (m : M)
    → is_retry d.chain_state ≡ true
    → is_not_waiting d.wait_reason ≡ true
    → d.status_after_wait ≡ err eagain
    → get_elem? ipc.queues d.waiting_object_index ≡ some q
    → q.valid ≡ true
    → do_msgrcv mem time d d.waiting_object_index q ipc.memory
      ≡ record { status = status; config = d; queue = q'; memory = m }
    → msgrcv_retry mem time ipc d
      ≡ some (
        status,
        store mem time ipc d.waiting_object_index (record {
          status = status;
          config = record d { chain_state = not_chained };
          queue = q';
          memory = m;
        }),
      )
unfolding msgrcv_retry retry_queue end_retry
retry-receives mem time ipc d q q' status m r nw s e v got =
    let ended : end_retry mem time (do_msgrcv mem time d d.waiting_object_index q ipc.memory)
        ≡ record {
          status = status;
          config = record d { chain_state = not_chained };
          queue = q';
          memory = m;
        } =
      ap (end_retry mem time) got ∙ simp (end_retry, nw) in
    simp (msgrcv_retry, r, s, e, retry_queue, v, ended)

get_elem?-set_twice :
    (l : List Queue) (i : ℕ) (x y : Queue)
    → i < length l
    → get_elem? (set (set l i x) i y) i ≡ some y
get_elem?-set_twice l i x y h = get_elem?-set_self (set l i x) i y (rw (length-set l i x) h)

-- A tracee waits for a message, and the queue holds none that it takes. The first tracee, in the
-- order of the name-space, that waits for such a message as `sysvipc_msgsnd` sends, and that can be
-- woken, is woken; where its arguments are valid, the message fits or may be cut and its buffer is
-- written, the retry behind the call returns with the message, and the queue holds what it held.
pub msgsnd-delivers :
    {M : Type 0} (mem : Memory M) (time later : ℕ) (ipc : Ipc M) (pid id msgp msgsz i n : ℕ)
    (q : Queue) (item : Item) (before after : List Config) (c : Config) (m : M)
    → lookup_ipc_object id ipc.queues ≡ ok (i, q)
    → read_item mem ipc.memory pid msgp msgsz ≡ ok item
    → ipc.configs ≡ before ++ c ∷ after
    → All (λ d. is_ready i item d ≡ false) before
    → receives_on i c ≡ true
    → takes c item ≡ true
    → CanWake c
    → bad_arguments c ≡ false
    → has_flag c.msgrcv_msgflg msg_copy ≡ false
    → NoneTaken c q.items
    → delivered_size c item ≡ ok n
    → Writes mem c item n ipc.memory m
    → (s : WaitState) × (b : Bool) × (ipc' : Ipc M) × (msgsnd mem time ipc pid id msgp msgsz
        ≡ some (ok 0, ipc'))
      × (ipc'.configs ≡ before ++ retrying c s b ∷ after)
      × ((ipc'' : Ipc M) × (got : Queue) × (msgrcv_retry mem later ipc' (retrying c s b)
            ≡ some (ok n, ipc''))
          × (get_elem? ipc''.queues i ≡ some got)
          × (got.items ≡ q.items)
          × (ipc''.memory ≡ m))
unfolding msgsnd msgrcv_retry
msgsnd-delivers {M} mem time later ipc pid id msgp msgsz i n q item before after c m e r cs ne rc t
      w b y p s wr =
    let woken = wake_receiver-first i item before after c ne rc t w in
    let d = retrying c woken.0 woken.1 in
    let sent = append_item q pid time item in
    let facts = lookup_ok id ipc.queues i q e in
    let same : c.waiting_object_index ≡ i = ground arith in
    let v : sent.valid ≡ true = unfold append_item in lookup-valid id ipc.queues i q e in
    let queues = set ipc.queues i sent in
    let there : get_elem? queues c.waiting_object_index ≡ some sent =
      rw same (get_elem?-set_self ipc.queues i sent facts.2) in
    let got =
      do_msgrcv-first mem later d c.waiting_object_index sent q.items [] item n ipc.memory m
        (unfold bad_arguments in b) y (unfold append_item in refl) p t (unfold delivered_size in s)
        (record {
          middle = wr.middle;
          type_written = wr.type_written;
          text_written = wr.text_written;
        }) in
    (
      woken.0,
      woken.1,
      record ipc { queues = queues; configs = before ++ d ∷ after },
      rw (msgsnd, e, r, cs, woken.2) refl,
      refl,
      (
        _,
        taken d later sent (q.items ++ []) item,
        retry-receives mem later (record ipc { queues = queues; configs = before ++ d ∷ after }) d
            sent (taken d later sent (q.items ++ []) item) (ok n) m refl refl refl there v got,
        rw same (get_elem?-set_twice ipc.queues i sent _ facts.2),
        append_nil q.items,
        refl,
      ),
    )

-- A tracee that a message has woken, and for which that message is too long, gets E2BIG: the message
-- stays in the queue, and no other tracee is woken, also where one waits that takes the message.
pub msgrcv_retry-too_big :
    {M : Type 0} (mem : Memory M) (time : ℕ) (ipc : Ipc M) (c : Config) (q : Queue)
    (before after : List Item) (item : Item)
    → is_retry c.chain_state ≡ true
    → is_not_waiting c.wait_reason ≡ true
    → c.status_after_wait ≡ err eagain
    → get_elem? ipc.queues c.waiting_object_index ≡ some q
    → q.valid ≡ true
    → bad_arguments c ≡ false
    → has_flag c.msgrcv_msgflg msg_copy ≡ false
    → q.items ≡ before ++ item ∷ after
    → NoneTaken c before
    → takes c item ≡ true
    → delivered_size c item ≡ err e2big
    → msgrcv_retry mem time ipc c
      ≡ some (
        err e2big,
        record ipc {
          queues = set ipc.queues c.waiting_object_index q;
          configs = update_config c.pid (λ _. record c { chain_state = not_chained }) ipc.configs;
        },
      )
msgrcv_retry-too_big mem time ipc c q before after item r nw s e v b y its n t big =
    retry-receives mem time ipc c q q (err e2big) ipc.memory r nw s e v (
      do_msgrcv-too_big mem time c c.waiting_object_index q before after item ipc.memory b y its n t
        big)
