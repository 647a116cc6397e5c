-- ===== src/Protocol/Front.antt =====
-- protocol.c: the steps of `create_arg_packet` from the headers on keep all of them but the lengths.
use addressroutinggateway.Prelude.{
  ℕ, zero, suc, ◌+◌, ◌-◌, ◌<◌, ◌≤◌, ◌%◌, ◌≡◌, refl, ap, ◌∙◌, List, Bool-cases, Option, none, some,
  ◌⊎◌, inl, inr, ℤ, length, arith, min, ltb, ◌==◌,
}
use addressroutinggateway.Memory.{Bytes, slice, write, put16, write_below}
use addressroutinggateway.Packet.{ip_tot_len, PacketData, parse_packet, arg_proto}
use addressroutinggateway.Packet.Buffers.{raw_packet}
use addressroutinggateway.Packet.Reparse.{
  parse_packet-SameFrame, parse_packet-raw_packet, parse_packet-ipv4, parse_packet-arg,
}
use addressroutinggateway.World.{
  World, Outcome, done, null_dereference, deadlock, and_then, deref, Env, Gate,
}
use addressroutinggateway.Protocol.Message.{ArgMsg, hdr_len}
use addressroutinggateway.Protocol.Cipher.{cipher_loop, cipher_bytes, make_nounce}
use addressroutinggateway.Protocol.Create.{
  is_symmetric, set_lengths, encrypt_symmetric, place, encrypt_public, encrypt, place_signature,
  sign, finish_packet,
}

-- The headers but for the two lengths.
abbrev pub SameFront : Bytes → Bytes → Type 0
SameFront c b = (j : ℕ) → j < 28 → (j < 2) ⊎ ((4 ≤ j) × (j < 22)) ⊎ (24 ≤ j) → c j ≡ b j

-- A packet, if there is one, is as stated.
abbrev pub Made : {T : Type 0} → (PacketData → Type 0) → Outcome T (ℤ × Option PacketData) → Type 0
Made F (done (x, some q) w) = F q
Made F (done (x, none) w) = Unit {0}
Made F null_dereference = Unit {0}
Made F deadlock = Unit {0}

-- Headers like those at the start of b.
pub record IsHeaded (b : Bytes) (q : PacketData) : Type 0 where
  pub ip_at : q.ipv4 ≡ some 0
  pub arg_at : q.arg ≡ some 20
  pub same_front : SameFront q.data_bytes b

pub Made-weaken :
    {T : Type 0} (F G : PacketData → Type 0) (o : Outcome T (ℤ × Option PacketData))
    → ((q : PacketData) → F q → G q)
    → Made F o
    → Made G o
Made-weaken F G (done (x, some q) w) h m = h q m
Made-weaken F G (done (x, none) w) h m = tt
Made-weaken F G null_dereference h m = tt
Made-weaken F G deadlock h m = tt

-- A parse of a packet without a link layer, whose IP header has no options and the number of ARG.
pub record IsArgAt (q : PacketData) : Type 0 where
  pub ip_start : q.ipv4 ≡ some 0
  pub arg_start : q.arg ≡ some 20
  pub data_start : q.unknown_data ≡ some 156

raw_packet-IsArgAt :
    (n link : ℕ) (b : Bytes)
    → link ≡ 0
    → b 0 ≡ 0x45
    → b 9 ≡ arg_proto
    → IsArgAt (parse_packet (raw_packet n link b)).0
raw_packet-IsArgAt n link b none_there version proto =
    let (arg, unknown) = parse_packet-arg n b version proto in
    rw none_there
      (record { ip_start = parse_packet-ipv4 n b; arg_start = arg; data_start = unknown })

pub parse_packet-IsArgAt :
    (p : PacketData)
    → p.link_layer_len ≡ 0
    → p.data_bytes 0 ≡ 0x45
    → p.data_bytes 9 ≡ arg_proto
    → IsArgAt (parse_packet p).0
parse_packet-IsArgAt p link version proto =
    rw (parse_packet-raw_packet p)
      (raw_packet-IsArgAt p.len p.link_layer_len p.data_bytes link version proto)

module _ (env : Env) where
  cipher_loop-below :
      (key nounce : List ℕ) (fuel i len : ℕ) (src : Bytes) (from : ℕ) (dst : Bytes) (to total j : ℕ)
      → j < to
      → (cipher_loop env key nounce fuel i len src from dst to total).0 j ≡ dst j
  unfolding cipher_loop
  cipher_loop-below key nounce zero i len src from dst to total j h = refl
  cipher_loop-below key nounce (suc fuel) i len src from dst to total j h =
      elim (Bool-cases (ltb i len)) [
        | inl more ↦ rw more (
            cipher_loop-below key nounce fuel (i + env.cipher_block_size) len src from
              (write dst (to + i) (
                env.cipher_update key nounce i
                  (slice src (from + i) (min env.cipher_block_size (len - i)))))
              to
              ((total
                  + length (
                      env.cipher_update key nounce i
                        (slice src (from + i) (min env.cipher_block_size (len - i)))))
                % 65536)
              j h
            ∙ write_below dst (to + i) _ j (omega arith))
        | inr last ↦ rw last refl
      ]

  place-below : (c : Option (List ℕ)) (b : Bytes) (u j : ℕ) → j < u → place env c b u j ≡ b j
  place-below none b u j h = refl
  place-below (some c) b u j h = write_below b u c j h

  put_len-SameFront : (b : Bytes) (v : ℕ) → SameFront (put16 b 22 v) b
  unfolding put16 write
  put_len-SameFront b v j inside where' = ground arith

  put_tot_len-SameFront : (b : Bytes) (v : ℕ) → SameFront (put16 b 2 v) b
  unfolding put16 write
  put_tot_len-SameFront b v j inside where' = ground arith

  encrypt_public-SameFront :
      (draw : ℕ) (remote : Gate) (b : Bytes) (msg : ArgMsg)
      → SameFront (encrypt_public env draw remote b 20 156 msg) b
  unfolding encrypt_public
  encrypt_public-SameFront draw remote b msg j inside where' =
      place-below (env.rsa_encrypt draw remote.rsa (slice msg.msg_bytes 0 msg.len)) _ 156 j
        (omega arith)
      ∙ put_len-SameFront b _ j inside where'

  encrypt_symmetric-SameFront :
      (remote : Gate) (b : Bytes) (msg : ArgMsg)
      → SameFront (encrypt_symmetric env remote b 20 156 msg) b
  unfolding encrypt_symmetric cipher_bytes
  encrypt_symmetric-SameFront remote b msg j inside where' =
      put_len-SameFront _ _ j inside where'
      ∙ cipher_loop-below remote.cipher_key (make_nounce remote.iv b 20) msg.len 0 msg.len
          msg.msg_bytes 0 b 156 0 j (omega arith)

  module _ (T : Type 0) (l r type : ℕ) (ref : Bytes) (version : ref 0 ≡ 0x45)
      (proto : ref 9 ≡ arg_proto) where
    place_signature-Made :
        (p : PacketData) (sig : Option (List ℕ)) (w : World T)
        → IsHeaded ref p
        → Made (IsHeaded ref) (place_signature env p 20 sig w)
    place_signature-Made p none w h = tt
    place_signature-Made p (some sig) w h = record {
      ip_at = h.ip_at;
      arg_at = h.arg_at;
      same_front = λ j inside where'.
          write_below p.data_bytes 28 sig j inside ∙ h.same_front j inside where';
    }

    sign-Made :
        (local : Gate) (p : PacketData) (w : World T)
        → IsHeaded ref p
        → Made (IsHeaded ref) (sign env type local p 20 w)
    unfolding sign
    sign-Made local p w h = elim (Bool-cases (type == 0)) [
      | inl wrapped ↦ rw wrapped (
          place_signature-Made p
            (some (env.md_hmac local.sym_key (slice p.data_bytes 20 (hdr_len p.data_bytes 20)))) w
            h)
      | inr other ↦ rw other (
          place_signature-Made p
            (env.rsa_sign local.rsa (env.sha1 (slice p.data_bytes 20 (hdr_len p.data_bytes 20)))) w
            h)
    ]

    signed-Made :
        (local : Gate) (p : PacketData) (x : Option ℕ) (w : World T)
        → x ≡ some 20
        → IsHeaded ref p
        → Made (IsHeaded ref) (and_then (deref x w) (λ a. sign env type local p a))
    signed-Made local p none w e h = tt
    signed-Made local p (some a) w e h = let same : a ≡ 20 = cc in rw same (sign-Made local p w h)

    parsed-IsHeaded :
        (p : PacketData)
        → p.link_layer_len ≡ 0
        → SameFront p.data_bytes ref
        → IsHeaded ref (parse_packet p).0
    parsed-IsHeaded p link h =
        let found =
          parse_packet-IsArgAt p link (h 0 (omega arith) (inl (omega arith)) ∙ version)
            (h 9 (omega arith) (inr (inl (omega arith, omega arith))) ∙ proto) in
        record {
          ip_at = found.ip_start;
          arg_at = found.arg_start;
          same_front =
              λ j inside where'. ap (λ b. b j) (parse_packet-SameFrame p).1 ∙ h j inside where';
        }

    set_lengths-IsHeaded :
        (p : PacketData)
        → p.link_layer_len ≡ 0
        → SameFront p.data_bytes ref
        → IsHeaded ref (set_lengths p 0 20)
    unfolding set_lengths
    set_lengths-IsHeaded p link h =
        let total = ip_tot_len p.data_bytes 0 + hdr_len p.data_bytes 20 in
        parsed-IsHeaded (record p { len = total; data_bytes = put16 p.data_bytes 2 total }) link
          (λ j inside where'.
            put_tot_len-SameFront p.data_bytes total j inside where' ∙ h j inside where')

    finish_packet-Made :
        (local : Gate) (p : PacketData) (body : ℤ ⊎ Bytes) (w : World T)
        → p.link_layer_len ≡ 0
        → ((b : Bytes) → body ≡ inr b → SameFront b ref)
        → Made (IsHeaded ref) (finish_packet env type local p 0 20 body w)
    finish_packet-Made local p (inl err) w link h = tt
    finish_packet-Made local p (inr b) w link h =
        let headed = set_lengths-IsHeaded (record p { data_bytes = b }) link (h b refl) in
        signed-Made local (set_lengths (record p { data_bytes = b }) 0 20) _ w headed.arg_at headed

    pub encrypt-Made :
        (local remote : Gate) (p : PacketData) (msg : Option ArgMsg) (w : World T)
        → p.link_layer_len ≡ 0
        → Made (IsHeaded ref) (
            and_then
              (encrypt env type remote ref 20 156 msg w)
              (finish_packet env type local p 0 20))
    unfolding encrypt_symmetric
    encrypt-Made local remote p none w link =
        finish_packet-Made local p (inr (put16 ref 22 136)) w link
          (λ b e. let same : b ≡ put16 ref 22 136 = cc in rw same (put_len-SameFront ref 136))
    encrypt-Made local remote p (some msg) w link = elim (Bool-cases (is_symmetric type)) [
      | inl symmetric ↦ elim (Bool-cases remote.connected) [
        | inl up ↦
            rw (symmetric, up)
              (enciphered (encrypt_symmetric env remote ref 20 156 msg) w
                (encrypt_symmetric-SameFront remote ref msg))
        | inr down ↦ rw (symmetric, down) tt
      ]
      | inr public ↦ elim (Bool-cases (ltb remote.rsa.len msg.len)) [
        | inl long ↦ rw (public, long) tt
        | inr fits' ↦
            rw (public, fits')
              (enciphered (encrypt_public env w.draws remote ref 20 156 msg) _
                (encrypt_public-SameFront w.draws remote ref msg))
      ]
    ]
      where
        enciphered :
            (c : Bytes) (v : World T)
            → SameFront c ref
            → Made (IsHeaded ref) (finish_packet env type local p 0 20 (inr c) v)
        enciphered c v h =
            finish_packet-Made local p (inr c) v link (λ b e. let same : b ≡ c = cc in rw same h)
