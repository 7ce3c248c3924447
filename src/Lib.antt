-- ===== src/Lib.antt =====
-- The firmware of a presence node: an nRF5340 that reads an IWRL6432 radar over a UART and a SEN5x
-- air sensor over I2C, writes one record each 30 s into flash, and hands the records out over
-- Bluetooth.
--
-- Parts, and where they are modelled:
--  * src/tlv.c, src/tlv.h (Tlv): bytes from the radar become frames (Tlv.Reasm, tlv_push), frames
--    become payloads (Tlv.Find, tlv_find), payloads become targets or zone states (Tlv.Targets,
--    Tlv.Presence).
--  * src/radar.c (Radar): Radar.Uart is uart_isr, which fills the receive ring. Radar.Cli is
--    cli_wait and cli_drain, and Radar.Bringup the command line, the reset and radar_configure.
--    Radar.Stream is the loop of radar_thread over a chunk of bytes, which gives every complete frame
--    to on_frame, and Radar.Thread is radar_thread: that loop with its stall clock (session), the
--    configuration that is tried again (bring_up), and the two in turn. Radar.Window is on_frame up to
--    the end of its lock and radar_window_take, the counters that a record is made of; Radar.Types is
--    the list of TLV types that on_frame makes after that, and Radar.Console on_frame as a whole
--    (handle_frame), with the line of every fourth frame. Radar.Start is radar_start.
--  * src/sen5x.c (Sen5x): Sen5x.Crc is crc8, Sen5x itself the transactions, the start, the poll and
--    the window; Sen5x.Transfer, Sen5x.Period and Sen5x.Start say what they do over the bus.
--  * src/main.c (Node): the record that window_flush makes of the two windows, a round of main
--    (main_round), and its cadence. Node.Start is main up to its loop, with the probe mode and
--    adv_btn_init; Node.Report the lines that window_flush prints. Node.Period puts the components
--    together: thirty rounds, with the radar's thread in between, from the bus and the frames to a
--    record in the store.
--  * src/store.c (Store): the ring of records in flash, with store_append, store_get and store_init.
--    Store.Ring.Later is a store while records are appended, also between the test and the read of a
--    store_get; Store.PowerLoss is a flash whose power fails after some number of whole writes.
--  * src/frame.c, src/frame.h (Frame): the wire format; CRC, record, header, command and dump range.
--  * src/ble.c, src/ble.h (Ble): Ble.Dump is dump_run, which streams header, records and CRC in
--    notifications, and Ble.Notify the notification that is tried again (notify_chunk). Ble.DeviceId
--    is device_id_init, and Ble.Start ble_start. Ble.Link has the static variables and the handlers
--    of the control characteristic, the subscription, the connection and the advertising window;
--    Ble.Link.Events is the relation of every order in which they can run, with the timer and the work
--    queue. Ble.Serve is a round of dump_thread: a request from Ble.Link, served by Ble.Dump from the
--    store.
--
-- A definition has the name of its C function less the prefix. A struct is a record. State that the
-- code keeps in static variables is passed and returned. A pointer into a buffer is the buffer and an
-- index; an access out of range, or a loop that is out of fuel, is the outer `none` of the result, so
-- a theorem that the code answers says that neither happens. An error code is a signed number.
-- Unsigned integers are natural numbers with their wrap-around written out; a float is its 32-bit
-- pattern. A loop that waits for a deadline runs over a list of what its rounds find.
--
-- Bounds and fuel: tlv_find runs on one round more than the frame has bytes, and each round moves its
-- offset by 8 at least; dump_run on one round more than the records it covers; notify_chunk on one
-- round more than the attempts that can fail; uart_isr on one round more than the reads that give
-- bytes; cli_drain on one round more than the ring holds bytes; and a bring_up on one round more than
-- the configurations that the radar refuses. The other loops are structural.
--
-- Code that is not part of the repository is a parameter: the NVS file system (Store.Nvs, with its
-- documented laws in IsNvs), the work queue and the advertiser (Ble.Link.Zephyr, with IsPlatform),
-- the I2C bus of Sen5x, the UART and the ring buffer of Radar.Uart, the radar itself in
-- Radar.Bringup, the driver calls of the start (Base.Driver), bt_gatt_notify in Ble.Notify, and in
-- Ble.Dump the link (notify_chunk) and the store's answers. Concrete ones are in Tests.
--
-- Not modelled: the text around what is printed, and the centimetres of a printed coordinate, which
-- are floats; the tables of the GATT service and of the advertising data; the host tests. A locked
-- section and a handler are one step each, so handlers that interrupt each other are not covered, but
-- for the reader and the writer of the store. A write to the flash is done or has no effect, as NVS
-- promises, and an erase is one step.
pub mod Base
pub mod Tlv
pub mod Radar
pub mod Frame
pub mod Store
pub mod Ble
pub mod Sen5x
pub mod Node
pub mod Tests
