-- ===== src/Grey/Messages.antt =====
-- `ProcessMessage` of internal/grey/greylister.go.
use greyd_v.Base.{Bytes, ◌==◌, Option, []}
use greyd_v.Ipc.{Message, grey_message, addr_message}
use greyd_v.Result.{err, unknown_type}
use greyd_v.Memory.{Store}
use greyd_v.Grey.{Engine, SpfResult, Ctx, Time, Outcome, process_grey, process_non_grey}

unfoldable pub process_message :
    Engine → Option (Bytes → Bytes → Bytes → SpfResult) → Ctx → Time → Message → Store → Outcome
process_message g spf c now (grey_message tuple dst_ip sync) s =
    process_grey g spf c tuple sync dst_ip now s
process_message g spf c now (addr_message typ ip source expires sync is_delete) s =
    let r = process_non_grey c (typ == 2) ip expires is_delete now s in
    record { result = r.0; store = r.1; events = [] }
process_message g spf c now _ s = record { result = err unknown_type; store = s; events = [] }
