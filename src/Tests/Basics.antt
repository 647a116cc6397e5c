-- ===== src/Tests/Basics.antt =====
-- The theorems on times, masks, checksums, addresses and the cipher, each at one input.
use addressroutinggateway.Crypto.{totp, le_bytes}
use addressroutinggateway.Prelude.{
  ◌-◌, ◌/◌, ℕ, quot, rem, scale, ◌+ℤ◌, ◌≡◌, ◌↔◌, refl, [], ◌∷◌, true, some, pos, negsuc, inl, inr,
  ◌||◌, ◌%◌, arith, ◌-ℤ◌,
}
use addressroutinggateway.Utility.Time.{time_offset, time_plus, time_offset-swap}
use addressroutinggateway.Utility.Mask.{mask_array, mask_array_cmp, mask_array_cmp_iff}
use addressroutinggateway.Packet.Checksum.{checksum, fill_check}
use addressroutinggateway.Packet.Checksum.Verify.{checksum-fill_check}
use addressroutinggateway.World.{done}
use addressroutinggateway.Hopper.Address.{or_unmasked, address_at, is_valid_ip, same_bytes}
use addressroutinggateway.Hopper.Networks.{get_arg_network}
use addressroutinggateway.Hopper.Containment.{
  Finds, address_at-in_network, get_arg_network-address_at, get_arg_network-Finds,
}
use addressroutinggateway.Hopper.Window.{
  after_readings, step_address, is_valid_ip-two_steps, is_valid_ip-one_hop,
}
use addressroutinggateway.Protocol.Cipher.{cipher_bytes}
use addressroutinggateway.Protocol.Stream.{
  IsStreamCipher, stream_bytes, cipher_bytes-stream, cipher_bytes-cipher_bytes,
}
use addressroutinggateway.Protocol.Message.{ArgMsg}
use addressroutinggateway.Protocol.Create.{encrypt_symmetric}
use addressroutinggateway.Protocol.Receive.{clear_sig, decrypt_symmetric}
use addressroutinggateway.Protocol.RoundTrip.{decrypt_symmetric-encrypt_symmetric}
use addressroutinggateway.Tests.Setting.{at, env, key_stream, start, local, peer, bytes_of, inner}

-- A time before the whole second, and one and a half seconds back.
moved_back :
    time_plus (at 5 300000000) (negsuc 1499) ≡ record { tv_sec = pos 4; tv_nsec = negsuc 199999999 }
unfolding time_plus ◌+ℤ◌ scale rem quot
moved_back = refl

time_offset-swap_example :
    time_offset (at 5 0) (at 3 20000000) ≡ pos 0 -ℤ time_offset (at 3 20000000) (at 5 0)
time_offset-swap_example = time_offset-swap (at 5 0) (at 3 20000000)

mask_array_cmp_iff_example :
    (mask_array_cmp (255 ∷ 240 ∷ []) (10 ∷ 18 ∷ []) (10 ∷ 29 ∷ []) ≡ 0)
    ↔ (mask_array (10 ∷ 18 ∷ []) (255 ∷ 240 ∷ []) ≡ mask_array (10 ∷ 29 ∷ []) (255 ∷ 240 ∷ []))
mask_array_cmp_iff_example =
    mask_array_cmp_iff (255 ∷ 240 ∷ []) (10 ∷ 18 ∷ []) (10 ∷ 29 ∷ []) refl refl

checksum-fill_check_example : checksum (fill_check (λ j. 7) 0 20 36 24) 0 20 24 ≡ 65535
checksum-fill_check_example =
    checksum-fill_check (λ j. 7) 0 20 8 36 24 (λ j. omega arith) (omega arith) (omega arith)
      (omega arith) (omega arith)

address_at-in_network_example :
    mask_array_cmp peer.mask peer.base_ip (address_at env peer (pos 0) (at 100 0)) ≡ 0
address_at-in_network_example =
    address_at-in_network env peer (pos 0) (at 100 0)
      (omega arith, (omega arith, (omega arith, (omega arith, tt))))

not_local : mask_array_cmp local.mask local.base_ip (address_at env peer (pos 0) (at 100 0)) ≡ 1
unfolding mask_array_cmp address_at or_unmasked le_bytes totp
not_local = refl

get_arg_network-address_at_example :
    get_arg_network (address_at env peer (pos 0) (at 100 0)) start ≡ some 1
get_arg_network-address_at_example =
    get_arg_network-address_at env start 1 (pos 0) (at 100 0) (inr (inl refl))
      (omega arith, (omega arith, (omega arith, (omega arith, tt))))
      ((λ here. absurd (omega (arith, not_local))), ((λ same. refl), tt))

get_arg_network-Finds_example :
    Finds start (10 ∷ 0 ∷ 2 ∷ 77 ∷ []) (get_arg_network (10 ∷ 0 ∷ 2 ∷ 77 ∷ []) start)
get_arg_network-Finds_example = get_arg_network-Finds (10 ∷ 0 ∷ 2 ∷ 77 ∷ []) start

is_valid_ip-two_steps_example :
    (n : ℕ) × (is_valid_ip env 1 (10 ∷ 0 ∷ 2 ∷ 9 ∷ []) start
      ≡ done
          (same_bytes (10 ∷ 0 ∷ 2 ∷ 9 ∷ []) (step_address env peer (100000 / peer.hop_interval))
            || same_bytes
                (10 ∷ 0 ∷ 2 ∷ 9 ∷ [])
                (step_address env peer (100001 / peer.hop_interval - 1)))
          (record start { clock_reads = n }))
unfolding time_offset ◌+ℤ◌ scale ◌-ℤ◌ quot
is_valid_ip-two_steps_example =
    is_valid_ip-two_steps env 1 (10 ∷ 0 ∷ 2 ∷ 9 ∷ []) start 100000 100001 refl (omega arith)
      (omega arith) refl refl (omega arith) (omega arith) (omega arith)

is_valid_ip-one_hop_example :
    is_valid_ip env 1 (address_at env peer (pos 0) (at 99 800000000)) start
    ≡ done true (record start {
      clock_reads = after_readings env 1 (address_at env peer (pos 0) (at 99 800000000)) start;
    })
unfolding time_offset ◌+ℤ◌ scale ◌-ℤ◌ quot
is_valid_ip-one_hop_example =
    is_valid_ip-one_hop env 1 start peer (at 99 800000000) 99800 100000 100001 refl
      (record { same_base = refl; same_mask = refl; same_key = refl; same_interval = refl })
      (omega arith) (omega arith) refl refl refl (omega arith) (omega arith) (omega arith)
      (omega arith)

pub streams : IsStreamCipher env key_stream
streams = record { some_block = omega arith; updates = λ key iv i xs. refl }

cipher_bytes-stream_example :
    ((cipher_bytes env [] [] 20 (bytes_of inner) 0 (λ j. 0) 156).0 160
      ≡ stream_bytes (key_stream [] []) 0 20 (bytes_of inner) 0 (λ j. 0) 156 160)
    × ((cipher_bytes env [] [] 20 (bytes_of inner) 0 (λ j. 0) 156).1 ≡ 20 % 65536)
cipher_bytes-stream_example =
    cipher_bytes-stream env key_stream streams [] [] 20 (bytes_of inner) 0 (λ j. 0) 156 160

cipher_bytes-cipher_bytes_example :
    (cipher_bytes env [] [] 20
        (cipher_bytes env [] [] 20 (bytes_of inner) 0 (λ j. 0) 156).0
        156
        (λ j. 0)
        0).0
      3
    ≡ bytes_of inner 3
cipher_bytes-cipher_bytes_example =
    cipher_bytes-cipher_bytes env key_stream streams [] [] 20 (bytes_of inner) (λ j. 0) 156 (λ j. 0)
      3 (omega arith)

abbrev message : ArgMsg
message = record { len = 20; msg_bytes = bytes_of inner }

decrypt_symmetric-encrypt_symmetric_example :
    ((decrypt_symmetric env peer
        (encrypt_symmetric env peer (λ j. 0) 20 156 message)
        156
        (clear_sig (encrypt_symmetric env peer (λ j. 0) 20 156 message) 20)
        20
        message).len
      ≡ 20)
    × ((decrypt_symmetric env peer
            (encrypt_symmetric env peer (λ j. 0) 20 156 message)
            156
            (clear_sig (encrypt_symmetric env peer (λ j. 0) 20 156 message) 20)
            20
            message).msg_bytes
          3
        ≡ bytes_of inner 3)
decrypt_symmetric-encrypt_symmetric_example =
    decrypt_symmetric-encrypt_symmetric env key_stream streams peer peer refl refl (λ j. 0) 20 156
      (omega arith) message (omega arith) message 3 (omega arith)
