-- ===== src/Sluice/Spec.antt =====
-- What the port promises (the doc comment of `trait Queue`): for every tenant a FIFO list, and the
-- messages that consumers hold. The maps and the counter are forgotten.
use kaleidoscope.Prelude.{
  ℕ, Option, none, some, List, [], ◌∷◌, ◌++◌, ◌≡◌, leb, if◌then◌else◌, length, u64_add, nat_key,
  string_key, ◌==◌,
}
use kaleidoscope.Prelude.Map.{get}
use kaleidoscope.Sluice.Types.{
  TenantId, MessageId, Payload, Message, EnqueueError, full, InnerState, queue_of,
}

pub record View : Type 0 where
  pub last_id : ℕ
  pub contents : TenantId → List Message
  pub held_by : MessageId → Option Message

-- A function changed at one point.
abbrev pub at_tenant : (TenantId → List Message) → TenantId → List Message → TenantId → List Message
at_tenant f tenant queue t = if tenant == t then queue else f t

abbrev pub at_id :
    (MessageId → Option Message) → MessageId → Option Message → MessageId → Option Message
at_id f id m i = if id == i then m else f i

pub data Reply : Type 0 where
  accepted : MessageId → Reply
  refused : EnqueueError → Reply
  delivered : Option Message → Reply
  done : Reply

pub data Op : Type 0 where
  enqueue : TenantId → Payload → Op
  dequeue : TenantId → Op
  ack : MessageId → Op
  nack : MessageId → Op

unfoldable pub take_front : View → TenantId → List Message → View × Reply
take_front v tenant [] = (v, delivered none)
take_front v tenant (m ∷ rest) = (
  record v { contents = at_tenant v.contents tenant rest; held_by = at_id v.held_by m.id (some m) },
  delivered (some m),
)

unfoldable pub give_back : View → MessageId → Option Message → View × Reply
give_back v id none = (v, done)
give_back v id (some m) = (
  record v {
    contents = at_tenant v.contents m.tenant (m ∷ v.contents m.tenant);
    held_by = at_id v.held_by id none;
  },
  done,
)

-- A bounded FIFO for each tenant, with at-least-once delivery.
unfoldable pub promise : ℕ → View → Op → View × Reply
unfolding take_front give_back
promise bound v (enqueue tenant payload) =
    let id = u64_add v.last_id 1 in
    let m : Message = record { id = id; tenant = tenant; payload = payload } in
    if leb bound (length (v.contents tenant)) then (v, refused (full tenant bound)) else (
      record v {
        last_id = id;
        contents = at_tenant v.contents tenant (v.contents tenant ++ m ∷ []);
      },
      accepted id,
    )
promise bound v (dequeue tenant) = take_front v tenant (v.contents tenant)
promise bound v (ack id) = (record v { held_by = at_id v.held_by id none }, done)
promise bound v (nack id) = give_back v id (v.held_by id)

-- `s` has the view `v`.
pub record Shows (s : InnerState) (v : View) : Type 0 where
  pub last_id : s.next_id ≡ v.last_id
  pub contents : (t : TenantId) → queue_of s.pending t ≡ v.contents t
  pub held_by : (i : MessageId) → get s.in_flight i ≡ v.held_by i
