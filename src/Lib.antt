-- ===== src/Lib.antt =====
-- ARG (address routing gateway): gateways at the border of networks tunnel the packets between these
-- networks to one another from addresses that change with time, and translate addresses for all other
-- hosts. This library models the C program and proves what its parts do.
--
-- The parts, and where they are modelled (paths of the program from the root of the repository):
--   utility.c, crypto.c  Utility (Time, Mask), Crypto: times, masks, HOTP.
--   packet.c             Packet: `parse_packet` over the bytes of a frame (Memory), ports, checksums,
--                        creating, copying and sending, and the replies to ARP requests (Arp).
--   hopper.c             Hopper: `struct arg_network_info` is World/Gates; the address of a gateway at
--                        a time, its test (`is_valid_ip`), the search for a gateway, the admin thread,
--                        and `get_hopper_conf` (Config), which makes the gateways. Links has the
--                        `next` and `prev` links at the level of pointers, with the loop that removes.
--                        Direction has `invalid_ip_direction`, which nothing calls.
--   protocol.c           Protocol: creating and taking packets (Create, Receive, Cipher), pings,
--                        connection data, trust and tunnelled packets, and the next action (Flow).
--                        The way of a packet through the tunnel: what makes it whole (Sealed), its
--                        making (Seals, Wraps, Departs), its taking (Unwraps, Arrives, Forwards, Taken),
--                        and both together (Delivery).
--   nat.c                Nat: the table (uthash is the interface Nat/Table), both rewrites, cleaning.
--   director.c           Director: what becomes of a frame; it calls hopper.c and nat.c. The loop that
--                        receives the frames is Director/Loop; what it does with each is in Turns and
--                        Thread.
--   init.c               Program: the start and the end (Main), with those of hopper.c and nat.c (Hopper)
--                        and of director.c (Director), on mutexes, threads and handles of pcap (State).
--                        Calls of other parts and of the system stand for how they end; a run stops at
--                        the first that C, POSIX or pcap leave undefined.
--   settings.h, arg_error.h, arg_error.c  Settings: constants, error codes and their texts (Errors).
--   settings.c           Settings: `get_next_line` (Lines), `read_config` and the list of gates (Config),
--                        the key files (Keys). Strings in arrays are in Memory/Strings.
--   gen_gate_config.c    Settings/Generator: the tool that writes the key files.
-- A function of the program has the name that it has there. A call that acts on shared state is a
-- function of the state World.World to an Outcome: the result and the state after, or a stop of the
-- program by a NULL pointer or by a mutex that its own thread holds. The structures of the gateways lie
-- in a memory by address, and the `next` links are the order of the addresses; the NAT table is a
-- table as uthash documents it. A part of a function that decides by a computed value is a helper by
-- clauses beside it. Integers keep their width where the program can pass it (`% 2 ^ 32`).
--
-- Parameters, in World/Machine: the clock, random bytes, `malloc` (which may return NULL), `sendto`,
-- and PolarSSL's hashes, ciphers, RSA and big numbers; in Settings, `fopen`, `opendir`, `calloc`,
-- `inet_pton`, `strerror_r` and PolarSSL's files of numbers. Code of which a theorem relies on something
-- states it as a hypothesis: IsStreamCipher for AES in CTR mode, the laws in HashTable for uthash.
--
-- Fuel: the loop of the cipher has one unit for each byte of the message, and a block has at least
-- one byte, so that it ends before the fuel does, which Protocol/Stream proves. `get_next_line` has one
-- unit more than the file has bytes, and each call of `fgets` takes one at least, as Settings/Lines/Bounds
-- shows; `release_config` has one for each node. Of the loop that removes all gateways but the local one,
-- one more round is allowed than there are others, which Hopper/Links/Reached shows to be enough. All
-- other loops are recursions on lists.
--
-- Machine states the steps that the calls are made of, shows that the calls of the program's threads
-- make no others, and derives what holds in every state; Security is about packets that are forged or
-- come twice; Tests runs the model on small packets.
--
-- Not modelled: opening sockets, printing and logging, and uthash.h itself. A thread
-- is not interrupted within a call: the mutex of the NAT table and `ipLock`, which are held for short
-- stretches within a call, are left out, and those of the gateways are kept.
pub mod Prelude
pub mod Utility
pub mod Memory
pub mod Settings
pub mod Packet
pub mod World
pub mod Crypto
pub mod Hopper
pub mod Nat
pub mod Protocol
pub mod Director
pub mod Machine
pub mod Security
mod Tests
pub mod Program
