-- ===== src/Audio/Ring/Tests.antt =====
-- engine/internal/audio/ring.go and format.go: runs on concrete rings and formats.
use remoteau.Common.{◌≡◌, refl, ok, true, false, List, [], ◌∷◌, length, arith}
use remoteau.Common.Int.{pos, negsuc}
use remoteau.Common.Circular.{copy_in, copy_out}
use remoteau.Audio.Format.{default_format, new_format}
use remoteau.Audio.Ring.{
  Ring, new_ring, write_locked, try_write, read_locked, read, try_read, add_dropped, aligned_len,
  align_up, make_room, trim_to_size, store, write_aligned,
}
use remoteau.Audio.Ring.Inv.{IsValid}
use remoteau.Audio.Ring.Queue.{contents}
use remoteau.Audio.Ring.Client.{
  Call, try_writes, reads, try_reads, wrote, filled, run, step, queue_run, run-queue_run,
}

-- Two bytes a sample, three samples; the queue goes round the end of the storage.
abbrev wrapped : Ring
wrapped = record { buf = 5 ∷ 6 ∷ 1 ∷ 2 ∷ 3 ∷ 4 ∷ []; quantum = 2; read = 4; used = 4; dropped = 0 }

wrapped-IsValid : IsValid wrapped
wrapped-IsValid = omega arith

contents-wrapped : contents wrapped ≡ 3 ∷ 4 ∷ 5 ∷ 6 ∷ []
contents-wrapped = refl

-- A size below the quantum, a negative quantum, and a size that is cut to whole quanta.
new_ring-sizes :
    (length (new_ring (pos 3) (pos 4)).buf ≡ 4)
    × ((new_ring (pos 3) (negsuc 0)).quantum ≡ 1)
    × (length (new_ring (pos 11) (pos 4)).buf ≡ 8)
unfolding new_ring
new_ring-sizes = (refl, refl, refl)

-- Five bytes into room for two: one is cut off, two old ones are pushed out.
abbrev script : List Call
script =
    try_writes true (7 ∷ 8 ∷ 9 ∷ 10 ∷ 11 ∷ [])
    ∷ try_writes false (1 ∷ 1 ∷ [])
    ∷ reads (0 ∷ 0 ∷ 0 ∷ 0 ∷ 0 ∷ [])
    ∷ try_reads false (0 ∷ 0 ∷ [])
    ∷ try_reads true (0 ∷ 0 ∷ 0 ∷ 0 ∷ [])
    ∷ []

run-script :
    run wrapped script
    ≡ wrote 4
      ∷ wrote 0
      ∷ filled (5 ∷ 6 ∷ 7 ∷ 8 ∷ 0 ∷ []) 4
      ∷ filled (0 ∷ 0 ∷ []) 0
      ∷ filled (9 ∷ 10 ∷ 0 ∷ 0 ∷ []) 2
      ∷ []
unfolding run step try_write read try_read write_locked read_locked write_aligned trim_to_size
    make_room align_up store aligned_len add_dropped copy_in copy_out
run-script = refl

run-queue_run_example : run wrapped script ≡ queue_run 6 2 (contents wrapped) script
run-queue_run_example = run-queue_run wrapped script wrapped-IsValid

new_format-default : new_format (pos 48000) (pos 2) (pos 10) ≡ ok default_format
unfolding new_format
new_format-default = refl
