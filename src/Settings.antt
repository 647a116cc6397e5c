-- ===== src/Settings.antt =====
-- settings.h and arg_error.h: the constants the program is built with, and the error codes.
-- Structures are laid out as gcc lays them out, with no padding between the fields used here.
pub mod Errors
pub mod Texts
pub mod Lines
pub mod Config
pub mod Keys
pub mod Generator
use addressroutinggateway.Prelude.{ℕ, ℤ, negsuc}

-- settings.h
abbrev pub connect_wait_time : ℕ
connect_wait_time = 60

abbrev pub max_update_time : ℕ
max_update_time = 180

abbrev pub min_ping_time : ℕ
min_ping_time = 5

abbrev pub max_ping_time : ℕ
max_ping_time = 30

abbrev pub min_valid_ip_prop : ℕ
min_valid_ip_prop = 20

abbrev pub nat_clean_time : ℕ
nat_clean_time = 20

abbrev pub nat_old_conn_time : ℕ
nat_old_conn_time = 120

abbrev pub seq_num_wrap_allowance : ℕ
seq_num_wrap_allowance = 10

abbrev pub max_name_size : ℕ
max_name_size = 10

abbrev pub rsa_sig_size : ℕ
rsa_sig_size = 128

abbrev pub aes_key_size : ℕ
aes_key_size = 32

abbrev pub aes_block_size : ℕ
aes_block_size = 16

abbrev pub hop_key_size : ℕ
hop_key_size = 16

-- The error codes of arg_error.h, as the functions return them: negated.
abbrev pub arg_seq_bad : ℤ
arg_seq_bad = negsuc 149

abbrev pub arg_unhandled_type : ℤ
arg_unhandled_type = negsuc 150

abbrev pub arg_sig_check_failed : ℤ
arg_sig_check_failed = negsuc 151

abbrev pub arg_signing_failed : ℤ
arg_signing_failed = negsuc 152

abbrev pub arg_decrypt_failed : ℤ
arg_decrypt_failed = negsuc 153

abbrev pub arg_encrypt_failed : ℤ
arg_encrypt_failed = negsuc 154

abbrev pub arg_msg_size_bad : ℤ
arg_msg_size_bad = negsuc 155

abbrev pub arg_msg_unexpected : ℤ
arg_msg_unexpected = negsuc 156

abbrev pub arg_msg_id_bad : ℤ
arg_msg_id_bad = negsuc 157

abbrev pub arg_packet_parse_error : ℤ
arg_packet_parse_error = negsuc 158

abbrev pub arg_bucket_not_found : ℤ
arg_bucket_not_found = negsuc 159

abbrev pub arg_entry_not_found : ℤ
arg_entry_not_found = negsuc 160

abbrev pub arg_not_connected : ℤ
arg_not_connected = negsuc 161

abbrev pub arg_config_bad : ℤ
arg_config_bad = negsuc 162

abbrev pub arg_internal_error : ℤ
arg_internal_error = negsuc 163

-- `-ENOMEM`
abbrev pub enomem : ℤ
enomem = negsuc 11
