-- ===== src/Settings/Errors.antt =====
-- arg_error.c: the texts of the error codes.
use Prim.Native.String.{String}
use addressroutinggateway.Prelude.{
  ℕ, ◌-◌, ℤ, pos, negsuc, ◌-ℤ◌, Bool, ltb, ◌==◌, List, [], ◌∷◌, if◌then◌else◌,
}
use addressroutinggateway.Prelude.Text.{codes}
use addressroutinggateway.Memory.{Bytes}
use addressroutinggateway.Memory.Strings.{strncpy}
use addressroutinggateway.Settings.{
  arg_seq_bad, arg_unhandled_type, arg_sig_check_failed, arg_signing_failed, arg_decrypt_failed,
  arg_encrypt_failed, arg_msg_size_bad, arg_msg_unexpected, arg_msg_id_bad, arg_packet_parse_error,
  arg_bucket_not_found, arg_entry_not_found, arg_not_connected, arg_config_bad, arg_internal_error,
}

abbrev pub max_error_str_len : ℕ
max_error_str_len = 35

abbrev pub arg_min_error : ℕ
arg_min_error = 150

abbrev pub same_code : ℤ → ℤ → Bool
same_code (pos a) (pos b) = a == b
same_code (pos a) (negsuc b) = Bool.false
same_code (negsuc a) (pos b) = Bool.false
same_code (negsuc a) (negsuc b) = a == b

-- The cases of the `switch`, in their order, and the choice among them.
abbrev pub error_texts : List (ℤ × String)
error_texts =
    (arg_seq_bad, "sequence number incorrect")
    ∷ (arg_unhandled_type, "unhandled message type")
    ∷ (arg_sig_check_failed, "unable to verify sig")
    ∷ (arg_signing_failed, "signing failed")
    ∷ (arg_decrypt_failed, "unable to decrypt")
    ∷ (arg_encrypt_failed, "unable to encrypt")
    ∷ (arg_msg_size_bad, "improper msg size")
    ∷ (arg_msg_unexpected, "msg unexpected")
    ∷ (arg_msg_id_bad, "msg identifier bad")
    ∷ (arg_packet_parse_error, "unable to parse packet")
    ∷ (arg_bucket_not_found, "NAT bucket not found")
    ∷ (arg_entry_not_found, "NAT entry not found")
    ∷ (arg_not_connected, "gateway not connected")
    ∷ (arg_config_bad, "problem in configuration")
    ∷ (arg_internal_error, "internal error")
    ∷ []

unfoldable pub find_text : ℤ → List (ℤ × String) → String
find_text errnum [] = "unknown reason"
find_text errnum ((case, text) ∷ rest) =
    if same_code errnum case then text else find_text errnum rest

unfoldable pub error_text : ℤ → String
unfolding find_text
error_text errnum = find_text errnum error_texts

-- `-errnum < ARG_MIN_ERROR`
unfoldable pub is_system_error : ℤ → Bool
is_system_error (pos n) = Bool.true
is_system_error (negsuc n) = ltb n (arg_min_error - 1)

-- `strerror_r` is the library's: what it leaves in the buffer for an errno and a length.
unfoldable pub arg_strerror_r : (ℤ → ℕ → Bytes → Bytes) → ℤ → Bytes → ℕ → Bytes
unfolding error_text is_system_error
arg_strerror_r strerror_r errnum buf buflen =
    if is_system_error errnum
    then strerror_r (pos 0 -ℤ errnum) (buflen - 1) buf
    else strncpy (buflen - 1) (codes (error_text errnum)) buf
