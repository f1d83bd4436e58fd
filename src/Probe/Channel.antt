-- ===== src/Probe/Channel.antt =====
-- The channel that `init_dsa` of DSA_Kernelspace_Test/1.kernel_test/kernel_test_sgtable.c takes.
use dsa_test.Base.{
  ◌∙◌, Bool-cases, inl, inr, ◌+◌, ℕ, ◌-◌, ◌≡◌, ◌≤◌, refl, ap, Bool, true, false, Option, none, some,
  List, get_elem?, length, ltb, pos, returns, fault, arith,
}
use dsa_test.Probe.{IdxdWq, dsa_list, dsa_num, wq_num, take_channel, init_dsa, my_exit}

-- With enough devices, where the second queue of the third one is enabled but is no dmaengine queue,
-- `init_dsa` reports success without a channel, and `my_exit` then reads through NULL.
pub exit_without_channel :
    (grants : IdxdWq → Bool) (devices : List (Option (List IdxdWq))) (wqs : List IdxdWq)
    (wq : IdxdWq)
    → dsa_list ≤ length devices
    → get_elem? devices dsa_num ≡ some (some wqs)
    → get_elem? wqs wq_num ≡ some wq
    → wq.enabled ≡ true
    → wq.dmaengine ≡ false
    → (init_dsa grants devices ≡ returns (pos 0, none)) × (my_exit none ≡ fault)
unfolding init_dsa my_exit
exit_without_channel grants devices wqs wq many device queue on no_dma =
    let enough : ltb (length devices) dsa_list ≡ false = ground arith in
    (rw (enough, device, queue, on, no_dma) refl, refl)

pub take_channel-given :
    (grants : IdxdWq → Bool) (wq : IdxdWq)
    → ((w : IdxdWq) → grants w ≡ true)
    → (n : ℕ) × (take_channel grants wq ≡ some (record wq { client_count = n }))
      × (n - 1 ≡ wq.client_count - 1)
unfolding take_channel
take_channel-given grants wq given = elim (Bool-cases (ltb 0 wq.client_count)) [
  | inl used ↦ (wq.client_count - 1 + 1, rw used (rw (given _) refl), omega arith)
  | inr free ↦ (wq.client_count + 1, rw free (rw (given wq) refl), ground arith)
]

pub init_dsa-dmaengine :
    (grants : IdxdWq → Bool) (devices : List (Option (List IdxdWq))) (wqs : List IdxdWq)
    (wq : IdxdWq)
    → dsa_list ≤ length devices
    → get_elem? devices dsa_num ≡ some (some wqs)
    → get_elem? wqs wq_num ≡ some wq
    → wq.enabled ≡ true
    → wq.dmaengine ≡ true
    → init_dsa grants devices ≡ returns (pos 0, take_channel grants wq)
unfolding init_dsa
init_dsa-dmaengine grants devices wqs wq many device queue on dma =
    let enough : ltb (length devices) dsa_list ≡ false = ground arith in
    rw (enough, device, queue) (ground arith)

-- With enough devices, where the second queue of the third one is an enabled dmaengine queue whose channel is given,
-- `init_dsa` returns 0 with the channel; and `my_exit` then leaves one client less than there was
-- before, if there was one: the module gives back the reference of another client.
pub exit_drops_client :
    (grants : IdxdWq → Bool) (devices : List (Option (List IdxdWq))) (wqs : List IdxdWq)
    (wq : IdxdWq)
    → dsa_list ≤ length devices
    → get_elem? devices dsa_num ≡ some (some wqs)
    → get_elem? wqs wq_num ≡ some wq
    → wq.enabled ≡ true
    → wq.dmaengine ≡ true
    → ((w : IdxdWq) → grants w ≡ true)
    → (chan : IdxdWq) × (init_dsa grants devices ≡ returns (pos 0, some chan))
      × (my_exit (some chan) ≡ returns (record wq { client_count = wq.client_count - 1 }))
unfolding my_exit
exit_drops_client grants devices wqs wq many device queue on dma given =
    let (n, taken, left) = take_channel-given grants wq given in
    (
      record wq { client_count = n },
      init_dsa-dmaengine grants devices wqs wq many device queue on dma
          ∙ ap (λ c. returns (pos 0, c)) taken,
      ap (λ k. returns (record wq { client_count = k })) left,
    )
