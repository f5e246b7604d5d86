-- ===== src/Lib.antt =====
-- AVR Multi Motor Control: a client on a computer sends packets over a serial line to a master
-- controller, which drives the DC motors of slave controllers over an I2C bus.
--
-- The parts, and the files that model them:
-- - Crc: the checksum of client/source/crc.c and master/source/crc.c (crc_division_round, crc,
--   crc_check), which packets of both programs end with.
--   Copy has the master's own table and functions.
-- - Packet: packet_t and packet_craft, of include/common/packet.h and of both packet.c. A packet is
--   a record of the four bytes of its header and a body of 33 bytes. Dump is packet_print.
-- - Queue: what a ring buffer promises, in terms of a list of bytes. Master/Ring and Client/Ring
--   are the two ringbuffer.c; both are instances of the interface of Queue/Interface. Indices of the
--   master's are bytes, those of the client's size_t. Cyclic has the arithmetic of their indices.
--   Client/Ring/Threads has the calls of client/source/ringbuffer.c as steps of any number of
--   threads: a step relation with the lock, each access to the ring and the unlock.
-- - Master/Serial: master/source/serial.c. The transmit and receive interrupts are functions on the
--   module's state; serial_tx takes the number of interrupts that it waits for at most (32 are
--   enough, the size of its buffer), and serial_rx a schedule of the bytes that arrive before each
--   round of its loop. Port is its contract: a list of bytes to read and one of bytes sent, with
--   at most 32 in a call. The modules above use Port.
-- - Master/Comm and Master/Handler: master/source/communication.c. communication_recv ends with a
--   code and a packet, or waits for bytes, or writes past the packet. communication_handler is its
--   rounds, with fuel; four rounds for each byte of the input, and four more, are enough.
-- - Master/Operations, Master/Commands, Bus: master/source/communication_ops.c, master_commands.c and
--   dcmotor.c, over an I2C bus that is a parameter.
-- - Master/Twi: master/source/twi.c, the interrupt routine and the calls, with the bytes that come
--   and go on the wires.
-- - Client/Comm: client/source/communication.c, and the serial port below it. What is at the other
--   end of the line is a parameter: it takes the bytes of a transmission and gives an answer.
-- - Client/Serial: the loops of client/source/serial.c over calls of read and write that take fewer
--   bytes than asked for; each call is given with the most that it takes, so the loops need no fuel.
--   Open has serial_open and the attributes that it sets.
-- - Client/Scan and Client/EchoString: the conversions of words to numbers that
--   client/source/shell_commands.c calls, and the string that its dev_echo sends.
-- - Client/Commands: the commands of client/source/shell_commands.c, each a function of its words and
--   the storage, over the communication module. The calls on the device's descriptor are a parameter.
-- - Client/Shell: client/source/shell.c. Exec has the built-in commands, the execution of a line and
--   the loop. The input is a list of characters, cut into the lines that fgets gives, so that the loop
--   ends without fuel. Info has the flags, the prompts and shell_print.
--   qsort and bsearch are parameters; Arrays has what is documented of them.
-- - Client/Program: the table of commands, shell_new, and client/source/main.c.
-- - Link: the client's line with the master's handler at its other end, which is called when bytes
--   have come in, as in master/source/main.c. Its receive buffer takes 32 bytes of a transmission,
--   and what it sends has come when the client goes on.
-- - Slave: slave/source/twi.c (Twi), dcmotor.c, dcmotor_pid.c and dcmotor_phy.c (Motor), command.c
--   and main.c (Command). Floating-point arithmetic is a parameter of Motor.
-- - Field: the master's commands over a bus with one slave on it, which runs a round of its main
--   loop for each transfer that is addressed to it; Field/Many is the bus with any number of slaves.
--   Field/Drivers puts the two twi.c at the two ends of the wire: each step is an event of the bus,
--   with the interrupt that it raises at either end, and a transfer of n bytes is n + 3 steps.
-- - Sleep: sleep_on and sleep_while of master/include/sleep_util.h, which slave/include has a copy of,
--   as a step relation of instructions and interrupts. Loop is the main loop of master/source/main.c.
-- - SlaveTest: the test framework and test programs of slave/test.
-- Base has the names that all of them share, Samples and Slave/Samples the data of the tests.
--
-- Bytes and words are natural numbers, with the wrap-around written out. Memory that the code does
-- not initialise is a parameter (a packet or a command on the stack); a write out of an array's
-- bounds is an outcome of its own. Pointers that no caller passes as null are not null.
--
-- Not modelled: the text that the client prints on the error stream and its usage; the
-- system calls themselves and the constants of termios.h, which are parameters; getopt; the macro
-- `sleep`, which nothing uses, the power saving and the setup of the master's registers; repeated
-- starts and a lost arbitration on the wire; the dumps of the hardware tests and the copies of the
-- master's ring buffer and serial port among them; time, so that what the
-- master sends has come before the client's next call.
pub mod Base
pub mod Crc
pub mod Packet
pub mod Queue
pub mod Cyclic
pub mod Port
pub mod Bus
pub mod ComError
pub mod Master
pub mod Client
pub mod Link
pub mod Slave
pub mod Sleep
pub mod SlaveTest
pub mod Field
pub mod Samples
