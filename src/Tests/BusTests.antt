-- ===== src/Tests/BusTests.antt =====
-- The bus on concrete inputs.
use fortunelabs_mainboard_l.Prelude.{◌≤◌, ◌≡◌, refl, true, false, [], ◌∷◌}
use fortunelabs_mainboard_l.Platform.{
  Err, ok, err, Code, timeout, invalid_state, fail, Pointer, valid, Call, mutex, acquire, release,
  i2c, gpio, get_level, Transfer, transfer, transmit, receive,
}
use fortunelabs_mainboard_l.Bus.Lifecycle.{deinit, add_device}
use fortunelabs_mainboard_l.Platform
use fortunelabs_mainboard_l.Bus.Recovery
use fortunelabs_mainboard_l.Bus.Recovery.{recover_locked, clock_out}
use fortunelabs_mainboard_l.Bus.Transfers
use fortunelabs_mainboard_l.Bus.Transfers.{transfer_with, write}
use fortunelabs_mainboard_l.Bus.Scan.{scan}
use fortunelabs_mainboard_l.Bus.Traces.{acked, attempts}
use fortunelabs_mainboard_l.Bus.Delivery.{delivered, transfer_with-acked}
use fortunelabs_mainboard_l.Bus.Locking.{IsFree, transfer_with-IsFree}
use fortunelabs_mainboard_l.Bus.Recovered.{IsRecovered, recover_locked-IsRecovered}
use fortunelabs_mainboard_l.Bus.Faults.{run, failed_recovery_is_final, IsTimeout, timed_out}
use fortunelabs_mainboard_l.Tests.Boards.{healthy, failing, board, board_bus}

abbrev x : Transfer
x = transmit 7 (0x14 ∷ 1 ∷ [])

-- A write on a healthy bus takes the mutex, sends and gives the mutex back.
healthy-write : write healthy valid 7 (0x14 ∷ 1 ∷ []) board ≡ (
  ok,
  record { bus = board_bus; trace = mutex (release 3) ∷ i2c (transfer x) ∷ mutex (acquire 3) ∷ [] },
)
unfolding write transfer_with Transfers.transfer_locked Transfers.after_timeout Transfers.retry
healthy-write = refl

transfer_with-acked_example :
    let (r, out, s') = transfer_with healthy valid x board in
    (acked healthy s'.trace ≡ delivered healthy x r []) × (attempts s'.trace ≤ 2)
transfer_with-acked_example = transfer_with-acked healthy x valid board

transfer_with-IsFree_example : IsFree healthy (transfer_with healthy valid x board).2
transfer_with-IsFree_example =
    transfer_with-IsFree healthy valid x board (record { now = refl; before = tt })

recover_locked-IsRecovered_example :
    let (r, s') = recover_locked healthy board in IsRecovered healthy board r s'
recover_locked-IsRecovered_example = recover_locked-IsRecovered healthy board

late_write : IsTimeout (failing (err timeout) 1) x board
late_write = record { usable = refl; taken = refl; late = refl }

stuck_write : IsTimeout (failing (err timeout) 0) x board
stuck_write = record { usable = refl; taken = refl; late = refl }

-- With SDA held low the recovery gives up.
stuck_recovery :
    Platform.is_ok
      (recover_locked (failing (err timeout) 0) (timed_out (failing (err timeout) 0) x board)).0
    ≡ false
unfolding recover_locked Recovery.teardown clock_out
stuck_recovery = refl

failed_recovery_is_final_example :
    let P = failing (err timeout) 0 in
    let (r, out, s') = transfer_with P valid x board in
    (r ≡ err timeout)
    × (run P (x ∷ x ∷ []) s' ≡ (err invalid_state ∷ err invalid_state ∷ [], s'))
    × (deinit P valid s' ≡ (err invalid_state, s'))
    × (scan P valid s' ≡ (err invalid_state, 0, s'))
    × (Platform.is_ok (add_device P valid 0x48 100000 valid 0 s').0 ≡ false)
failed_recovery_is_final_example =
    failed_recovery_is_final (failing (err timeout) 0) x (x ∷ x ∷ []) valid valid 0x48 100000 0
      board stuck_write stuck_recovery

good_recovery :
    Platform.is_ok
      (recover_locked (failing (err timeout) 1) (timed_out (failing (err timeout) 1) x board)).0
    ≡ true
unfolding recover_locked Recovery.teardown clock_out Recovery.rebuild Recovery.reattach
    Recovery.readd
good_recovery = refl
