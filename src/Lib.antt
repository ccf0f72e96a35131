-- ===== src/Lib.antt =====
-- A verification library for the programs of this repository: small embedded Linux programs and
-- kernel drivers in C for three boards (iMX287Learn, 4412Drive, ok335xDriver). Most directories are
-- a program of their own; a few share sources.
--
-- Crc          iMX287Learn/cqada/share/mbuscrc.c: CRC16 with its two tables. Crc.Reference is the
--              bitwise CRC of the Modbus specification, Crc.Linear and Crc.Refine compare the
--              two, Crc.Running is about the two bytes it carries along, Crc.Detect about damaged
--              messages.
-- Usrtypes     iMX287Learn/cqada/share/usrtypes.h: the receive buffer and the index helpers, which
--              Usrtypes.Ring compares with the number of entries.
-- Usrtime      iMX287Learn/cqada/share/usrtime.c: the system time in three units, which
--              Usrtime.Units compares.
-- Uart         iMX287Learn/cqada/uart/haluart.c: the serial port's opening, settings and
--              read; Uart.Settings reads the settings back from the flags.
-- CommSub      iMX287Learn/cqada/uart/comm_sub.c: the Modbus master. It uses Crc, Usrtypes and
--              Uart; its static variables are the record CommSub, and each comm_sub_* function
--              is a function on it. CommSub.Sender, CommSub.Frame and CommSub.Checks are its
--              sending, its receiving of one frame and its checks; CommSub.Queue reads its list as
--              a queue of packets, and CommSub.Thread is the thread that app/main.c starts.
-- Cardet       iMX287Learn/cardet: a car detector of two light barriers. Cardet.Gettime is
--              timer/gettime.c with the macros timeradd and timercmp around it, Cardet.Driver the
--              stamps and operations of driver/dev.c and driver/ISR.c, Cardet.Detec the state
--              machine of detec/detec.c. Cardet.Passing follows one passage through the polls;
--              Cardet.System puts driver and program together, interrupts at any
--              time; Cardet.Udp is udp/udpser.c, which sends the count as text, and Cardet.Loop
--              main.c, with Cardet.Loop.Report from a passage to the text that is sent.
-- Pid          iMX287Learn/pid: seven speed controllers, each with the arithmetic of C's float
--              as a parameter. Pid.Positional is pid0.c and pid2_0.c, Pid.Incremental pid1.c and
--              pid2_1.c, Pid.Windup pid3.c and pid4.c, Pid.Variable pid5.c; Pid.Programs is what
--              their loops print. No law of that arithmetic is assumed.
-- Ds18b20      ok335xDriver/ds18b20: a one-wire temperature sensor, driver and program. The calls
--              on the pin are a list; Ds18b20.Sensor says on its own terms what a sensor hears of
--              them, Ds18b20.Reading follows a temperature from the pin to the decoded word, and
--              Ds18b20.Program is main.c over the driver.
-- Drivers      the start and the end of the kernel drivers, as functions from the answers of
--              the kernel's calls to a result and the list of calls: Drivers.Onewire is ds18b20.c,
--              Drivers.Userio ok335xDriver/ioremap/userio.c with its registers, Drivers.CardetDev
--              iMX287Learn/cardet/driver/dev.c, Drivers.KeyIrq cardet/doc/bk-ioint.c before it.
--              Drivers.Platform has devNodeReg.c, driverReg.c and helloWorld.c of 4412Drive, whose
--              functions answer events of one type in any order, and Drivers.Leds ledsDriver.c with
--              what a user sees of it. Which call gives or takes what is the function `account` of
--              Drivers, as the kernel documents it. Drivers.Programs has the programs
--              invoke_leds.c, invokeApp.c and ioremap/main.c.
-- Mqtt         iMX287Learn/mqtt/src/mqtt: an MQTT client, mqtt_api.c and, in Mqtt.App,
--              mqtt_app.c. Mqtt has the connection attempt and the handling of an event, as
--              functions from the answers of the system and of the SDK to a result, the calls on
--              descriptors and the new state; Mqtt.Descriptors is about the sockets that are open
--              and armed, Mqtt.App.Events about them over the client's life. Mqtt.Packet is what
--              is printed of a packet.
-- MsgQueue     iMX287Learn/msgqueue/queuesrc/queue.c: messages on a System V queue. MsgQueue has
--              the four functions, MsgQueue.Transfer follows a string from msg_snd to msg_rcv, and
--              MsgQueue.Programs has the programs mainsrc0, mainsrc1 and mainsrc3.
-- Net          iMX287Learn/net/cs0/server.c: a server that forks a process for each client. A
--              process is the record of its sockets and of whether it has ended; Net.Replies is
--              about what a client gets. Net.Client is client.c, and Net.Session puts it and the
--              server at the ends of a connection whose reads take all that is there.
-- Fifo         iMX287Learn/fifo: fifosrc/fifo.c, wfifo/wfifo.c and rfifo/rfifo.c, two programs at
--              the ends of a named pipe, which is a Common.Channel; Fifo.Stream is about their
--              rounds in any order. Fifo.Bulk is doc/fifowrite.c and doc/fiforead.c, whose turns
--              come in any order too, and Fifo.Upper doc/client.c and doc/server.c, which answers
--              in upper case; Fifo.Upper.Lives is about the pipes that they make, over the
--              directory of Fifo.Upper.Names. Fifo.Polled is doc/fifoexa0, whose programs do not
--              wait, over a pipe of Fifo.Polled.Interface.
-- SharedMemory iMX287Learn/sharememory/main.c, and fifo/mainsrc0/main.c with
--              fifo/mainsrc1/loadprogram.c, which also start the threads of Fifo: a parent that
--              writes the time into a block of shared memory, and its child.
--              SharedMemory.Interface is what they assume of the calls on the block;
--              SharedMemory.Latest is about rounds and children in any order.
--              SharedMemory.Sample is sharememory/doc/sample_write.c and sample_read.c, call by
--              call, over the named objects of SharedMemory.Named; its modules Printed and Orders
--              are about the order of the calls. SharedMemory.Objects meets what is assumed.
-- FileOpt      iMX287Learn/fileopt/fileopt.c: a file is written, read and printed, over the calls
--              of FileOpt.Interface. FileOpt.Disk is a file system that meets it, FileOpt.Copy
--              is about a whole run.
-- Processes    iMX287Learn/process: fork and execle of fcprocess.c, which SharedMemory and Threads
--              use, and what loadprogram.c prints.
-- Threads      iMX287Learn/thread: main.c starts a process and a thread; the process runs
--              loadprogram.c.
-- Common       lists, bits, strings in memory, decimal digits, signed integers and the timeval
--              macros of <sys/time.h>. Common.Channel is what programs assume of a stream of bytes
--              between them, a named pipe or a direction of a socket.
--
-- Static variables are records that the functions take and return, bytes and words are native
-- numbers with the wrap-around of their width written out (u8, u16, u64), signed integers are ℤ.
-- The results of system calls, the readings of the clock and the bytes that arrive are arguments.
-- `none` stands for an access outside an array, and for the end of the program where a function
-- calls exit; where the status matters it is in the Outcome of Processes. The loops of CRC16 and
-- of the polls recurse on the message or on the list of readings, so no fuel is needed; endless
-- loops are lists of arbitrary length. The digits that Cardet.Udp prints are bounded by the ten
-- that an int can have, those of Net.Session by the nineteen of a long. A pipe, a block of shared
-- memory, a directory and a file are parameters, records of calls with the laws that the programs
-- rely on, and each of them comes with an instance that meets its laws.
--
-- Not modelled: the copies of the OneNET SDK, with its sample, and of cJSON under iMX287Learn/mqtt,
-- which are other people's code; shmem.c under fifo/doc and sharememory/doc, which does not
-- compile; and programs and threads that only print or sleep (iMX287Learn/test000,
-- iMX287Learn/fifo/beep).
-- Messages that a modelled function prints are left out where they are not what the program is for.
pub mod Common
pub mod Crc
pub mod Usrtypes
pub mod Usrtime
pub mod Uart
pub mod CommSub
pub mod Cardet
pub mod Pid
pub mod Ds18b20
pub mod Drivers
pub mod Mqtt
pub mod MsgQueue
pub mod Net
pub mod Fifo
pub mod FileOpt
pub mod Processes
pub mod Threads
pub mod SharedMemory
