-- ===== src/Files/Tests.antt =====
-- A block of two words, of a file of five.
use libartnet.Base.{ℕ, ◌*◌, ◌≡◌, arith, true, false, some, List, replicate, take}
use libartnet.Files.{handle_file_tn_master}
use libartnet.Files.Upload.{file_packet, handle_file_tn_master_receives}
use libartnet.Firmware.{all_good}

upload_example :
    let r = handle_file_tn_master false (some true) (file_packet 10 0 0 5 (replicate 4 7) 2) in
    (received : List ℕ) × (r.call ≡ some (received, 2))
    × (take (2 * 2) received ≡ take (2 * 2) (replicate 4 7))
    × (r.reply ≡ some all_good)
upload_example =
    handle_file_tn_master_receives true 10 0 0 5 2 (replicate 4 7) (omega arith) (omega arith)
      (omega arith) (omega arith) (omega arith)
