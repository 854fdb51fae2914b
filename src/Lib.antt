-- ===== src/Lib.antt =====
-- Verification of postmerkOS: how a firmware image reaches the switch and its flash, the button that
-- resets it, its PoE controllers, and of its management daemon the accounts and their roles, the
-- logins and web sessions, the upload of firmware, and the counters of ports.
--
-- The parts and their files:
--   * SerialRx models buildroot/packages/fwupdate/fwserialrx.c (fwupdate/fwserialrx.c is the same
--     file), the receiver of an image over the serial console. SerialRx/Fields, Crc and Base64 are
--     its parsers, Object and End the operations object_begin, object_data, object_end and
--     metadata_write, Frame one line of the loop of main, Session the options, the loop and the
--     clean-up. SerialRx/Invariant and Safety hold the proofs on whole transfers, Progress those on
--     data frames, Base64/RoundTrip those on the decoder.
--   * Flash models buildroot/packages/fwupdate/fwflash.c, the helper that programs the partitions.
--     Flash/Device has erase_partition, write_image and compare_image, Program the attempts, the
--     restoration of a backup and rollback_and_reboot, Plan the checks of main and the order of its
--     work. Flash/Only, Verified, Attempts, Rollback and Outcome lead to Flash/Safety; Flash/Working
--     is a flash without failures, with Flash/Writing and Success about it; Flash/Ready is about
--     the options, Flash/Fuel about the bounds of the loops.
--   * Session models buildroot/packages/configd/session.c, the table of web sessions: Session/Table
--     has the operations, Compare the proofs on ct_equal, Creation and Revocation those on the
--     table.
--   * Manifest models version_compare of buildroot/packages/fwupdate/fwmanifest.c, by which the
--     updater tells newer firmware: Manifest/Version has the code, Antisymmetry and Fuel the proofs.
--   * Button models buildroot/packages/postmerkos-hardware/buttond.c: Button/Policy has load_policy,
--     Loop the inner loop of main, one function for each block of its body and turn for the whole,
--     with the reads of a turn as its argument. Invariant is about the variables, Hold and Press
--     about the turns before a reset, Bounds about the policy.
--   * Poe models buildroot/packages/pd690xx/libpd690xx.c: Poe/Bus has i2c_read and i2c_write, Chips
--     the probing and the addresses, Port the operations on a port. Registers says what is assumed
--     of the controllers; Able, Mode and Separate are about the operations.
--   * Roles models buildroot/packages/configd/roles.c: Roles/Fields has the lines of the account
--     files, Account the lookups and the role, Capability the capabilities; Lines, GroupLines, Grant
--     and Members hold the proofs.
--   * Portstats models the decoder of buildroot/packages/configd/portstats.c: Portstats/Varint and
--     Decode have the code, Counted, RoundTrip and Fuel the proofs.
--   * FindHdr models le_find of buildroot/packages/findhdr/find_hdr.c, which finds a header in an
--     image: FindHdr/Find has the code, Sound the proofs.
--   * Throttle models the delays after failed logins in buildroot/packages/configd/websocket.c, from
--     auth_bucket_for to auth_record_success: Throttle/Buckets has the table, Slots the place of a key
--     in it, Refine and Run compare it with a function from keys to counts, Holes is about freed
--     buckets.
--   * Auth models buildroot/packages/configd/auth.c: Auth/Accounts has the account and shadow files,
--     Verify the check of a password, Manage the changes of passwords, Groups those of roles, Users
--     the accounts made and removed. Equal, Lines and Proof are about the check, Change and Lifecycle
--     about the changes.
--   * Web models the connections in buildroot/packages/configd/websocket.c and the way of a firmware
--     image through them: Web/State has the state of a connection and of the server, Job the
--     operations on an upload and on the validation job (cleanup_upload, firmware_job_start,
--     firmware_job_poll and others), Gate the logins, revalidate_session, require_capability and
--     ws_revoke_user_sessions, Upload the requests about an image and receive_binary, Serve
--     handle_request and the events. Log says what the calls so far mean, Sound the invariant; its
--     modules Validation, Gate, Start, Upload and Input, on the operations, lead to Run, on all events;
--     Admit is about who may have a request carried out, Deliver about the bytes of an image.
--   * Json is what the programs use of json-c.
--   * Libc models the C library as these programs use it (character classes, strtoul on MIPS32,
--     strtok_r, decimal printing), Posix the file system. Prelude has the shared names and lemmas.
-- The receiver leaves a firmware file for the shell updater, which calls the flashing helper; the
-- two share no memory. Web composes Session, Throttle, Auth and Roles as the frontend of configd
-- does. The button daemon only asks for the firmware lock, which the updater holds.
--
-- Parameters: the program sha256sum is a function from a file to what it prints. The results of
-- open, read, write, fsync, close, rename and poll are arguments of the receiver, so each theorem
-- ranges over their failures; unlink, whose result the receiver ignores, is taken to succeed, so
-- nothing is claimed of files that it cannot remove. The kernel under the flashing helper is the record Flash.System, with
-- the laws that reads give what is stored and that calls on one partition leave the others alone.
-- The bytes that the random source gives for a session token are an argument.
-- json-c is the record Json.JsonC, with no laws. The I2C bus is the record Poe.Bus, and
-- Poe.Registers its laws, for the configuration registers of the ports: a read gives what the register
-- holds, a write that is acknowledged changes its own register or is lost, nothing else changes one;
-- any transfer may fail. The environment and the account files are the
-- record Roles.Account.System. The password hash crypt is a function with no laws; the programs that
-- change accounts are the record Auth.Manage.Commands over any type of states. What the kernel
-- answers to a request of a connection (a process started or not, the end of the validator, the
-- counts of write) is in the event, as are the clock and the random bytes; a reply can always be
-- queued. What stands behind the searched header in memory is an argument of le_find.
-- Bounds: integers have the widths of the source, with the wrap written out. The loops of the
-- flashing helper over an image are bounded by its length, since a turn that goes on moves at least
-- one byte; those of the comparison have as many turns as buffers fit. The loop
-- of version_compare is bounded by the bytes of both texts, of which each turn passes some; those of the
-- decoder of counters by the bytes left, of which each turn passes at least one. The session
-- table has 32 slots in the source, and any number in the theorems; its times are not wrapped, since
-- signed overflow is undefined. The button daemon's clock is monotonic, so its differences are taken
-- in the natural numbers. Negative ports and operations of the PoE library are left out: the code
-- treats them as it does 0 and 3. The 21 failed logins of Throttle fill at most 63 of the 64 buckets,
-- so none is taken from another key. A message of a connection has fewer than 2^31 bytes, which the
-- address space of the switch does not hold.
-- Not modelled: the messages meant for people, LEDs, the JSON text of the status file, the reboot
-- itself, the option parser of fwflash.c, GPIO and evdev input, the PoE readings in floating point,
-- the JSON text of an identity, the terminal and the other requests of websocket.c, and the other
-- programs of the repository, of which the rest of configd is the largest.
pub mod Prelude
pub mod Libc
pub mod Posix
pub mod SerialRx
pub mod Flash
pub mod Session
pub mod Manifest
pub mod Json
pub mod Button
pub mod Poe
pub mod Roles
pub mod Portstats
pub mod FindHdr
pub mod Throttle
pub mod Auth
pub mod Web
