-- ===== src/Tests/Stream.antt =====
-- The service with its streams: two days of entries, and a new process between them.
use proyecto_verde_auth.Base.{◌≡◌, [], none, some, codes, arith}
use proyecto_verde_auth.Siem.Logger.{log, verify_chain_integrity, go_on}
use proyecto_verde_auth.Siem.Stream.{
  SiemService, log_entry, on_module_init, close, cached, stream_writes, get_last_hash,
  get_current_sequence,
}
use proyecto_verde_auth.Siem.Settle.{settled}
use proyecto_verde_auth.Siem.Serving.{Serves, begins, logs, writes, begins_again, Serves-refines}
use proyecto_verde_auth.Tests.Siem.{login_format}
use proyecto_verde_auth.Tests.Tamper.{hex_lib, hex_lib-LogLaws}

abbrev first_process : SiemService
first_process = (log_entry hex_lib (codes "t1") 3 login_format (on_module_init hex_lib [])).1

-- The entry of the first day is on its way when the process closes.
abbrev second_process : SiemService
second_process =
    (log_entry hex_lib (codes "t2") 4 login_format
      (on_module_init hex_lib (settled (close first_process)).files)).1

second_process-Serves : Serves hex_lib 4 (stream_writes 3 second_process)
second_process-Serves = writes 3 (
    logs (codes "t2") 4 login_format
      (begins_again (logs (codes "t1") 3 login_format begins (omega arith))) (omega arith))

Serves-refines_example :
    let s = stream_writes 3 second_process in
    let (e, s') = log_entry hex_lib (codes "t3") 4 login_format s in
    (verify_chain_integrity hex_lib none none (settled s) ≡ go_on (get_last_hash s))
    × (e ≡ (log hex_lib (codes "t3") 4 login_format (settled s)).0)
    × (settled s' ≡ (log hex_lib (codes "t3") 4 login_format (settled s)).1)
    × (cached (get_current_sequence s') s'.hash_cache ≡ some (get_last_hash s'))
Serves-refines_example =
    Serves-refines hex_lib hex_lib-LogLaws second_process-Serves (codes "t3") 4 login_format
