-- ===== src/Lib.antt =====
-- A verification of the core of these exercises in C: the queues, trees, tables and message
-- loops that keep state.
--
-- module2/4.2/priority_queue.c is PriorityQueue.antt. The array of 256 linked lists is a list of
-- lists; initQueue, enqueue, dequeueHighest, dequeueByPriority and dequeueAtLeast are
-- init_queue, enqueue, dequeue_highest, dequeue_by_priority and dequeue_at_least. An index
-- outside the array gives none. PriorityQueue/Session is main's menu. PriorityQueue/Spec is the
-- abstract view: one line of nodes in order of arrival.
--
-- module2/4.3/main.c is ContactTree.antt. The tree of nodes is a data type; a null pointer that
-- is followed gives none. height, createNode, compare, rotateRight, rotateLeft, getBalance,
-- insert, search and printTree are height, create_node, compare_contacts, rotate_right,
-- rotate_left, get_balance, insert, search_name and print_tree. ContactTree/Menu is main's menu,
-- where a word that leaves its array gives none.
--
-- module1/task2/broker_pubsub.c is Broker.antt: add_publisher, find_subscriber,
-- add_subscription, remove_subscription, forward_message and process_message keep their names;
-- what a message makes the broker send comes back as a list. Broker/Behaviour runs the loop of
-- broker_mode. cleanup_broker is the list of what it asks of the kernel. Broker/Peers is
-- publisher_mode and subscriber_mode, and Broker/Messages has their messages read by the broker.
--
-- module1/task1/filecopy.c is FileCopy.antt: FileCopy/Pipe has read_exact and write_all, whose
-- calls of the kernel end with EINTR, an error or a count; FileCopy.antt the struct Message as
-- its bytes; FileCopy/Child child_loop, split into receive (the blocks of a file), receive_file,
-- round and child_loop; FileCopy/Parent parent_send_file and the loop of main as send_files.
-- receive has the count of bytes as fuel, child_loop one more than the files. The child and the
-- parent meet in FileCopy/Copying. The set-up of pipes and processes is not modelled.
--
-- module3/task15/server_epoll.c is EpollServer.antt: process_client and the part of main that
-- receives bytes. A round of process_client's loop is round, by the client's state; the loop is
-- process_loop, whose fuel is one more than twice the bytes of the buffer, since a round takes a
-- byte or ends a file. handle_arithmetic, on doubles, is an effect. receive is main's recv with
-- the room that the buffer has, and the disconnection; feed is what becomes of bytes that a recv
-- gave.
--
-- module2/2.1/phonebook.c is ArrayBook.antt, with addContact, showContacts, editContact and
-- deleteContact under their names; shift is the loop that moves the later contacts down. An
-- access to the array outside its 100 contacts gives none. ArrayBook/Entries has the list that
-- the book stands for.
--
-- module5/task3/kbleds.c is KbLeds.antt (timer_func, led_mask_show, led_mask_store, set_leds)
-- and KbLeds/Load (kbleds_init, kbleds_exit). module5/task4/chardev.c is Chardev.antt
-- (device_open, device_release, device_read), with the sequences of calls in Chardev/Exclusive;
-- the decimal print has 10 digits as fuel, which an int never exceeds.
--
-- module2/cross2/taxi.c is Taxi.antt (the dispatcher's table and commands, under their names),
-- Taxi/Cli (main) and Taxi/Driver (driver_main). The kernel's answers are arguments, and what is
-- asked of it is a list of effects. Times and durations are integers without bound: the code
-- computes the time that is left in an int, which holds 68 years, and which the duration of a
-- task near the least int overflows (lines 318 and 319). A run of a driver is the events before
-- the end of its command pipe, where it exits.
--
-- module1/task4/task4.c is SharedPool.antt. The shared memory is a function from offsets to
-- ints; produce is a round of producer_main's first loop, finish the end of it, all_done a round
-- of its last loop, and consume a round of consumer_main; search is the walk along the blocks,
-- whose fuel of 342 is more than the 340 blocks that the segment has room for. The semaphore
-- makes each of these one step. SharedPool/Layout ties the memory to a list of blocks, and
-- SharedPool/Queue runs the steps of one producer and any consumers in any order.
--
-- module2/cross1/server.c is EchoServer.antt, with checksum, add_client, find_client,
-- remove_client and process_packet under their names; process_packet is parse_packet, which
-- reads the packet, and answer. The buffer of main stands with what earlier packets left in it.
-- EchoServer/Datagram builds the packets of a client, EchoServer/Session runs the server on
-- them.
--
-- module1/task7/server.c is ChatServer.antt, with remove_client, broadcast_message and
-- process_client under their names; a round of process_client's loop is round, by the client's
-- state, and the loop is process_loop, whose fuel is one more than the bytes of the buffer,
-- since a round takes a byte or ends the loop. ChatServer/Loop is main: accept_client, admit,
-- and the pass over the polled descriptors. ChatServer/Understanding has the rounds without the
-- other clients. ChatServer/Transcript has the lines of a conversation, and what is to be read
-- of it. What poll, read and send answer is an argument.
--
-- Prelude holds what these share: lists as arrays, integers, C strings as lists of bytes, and
-- the conversions of scanf that the code uses. Memory allocation is taken to succeed throughout.
-- All other loops are structural recursion on the list or the count they run over, so that no
-- fuel is needed.
--
-- Not modelled: the calculators on doubles, the chats over queues, the client programs, the
-- shells and signal programs, and the other phone books. module3/cross1 and module3/cross2 hold
-- copies of the files of module2/cross1 and module2/cross2.
pub mod Prelude
pub mod ArrayBook
pub mod Broker
pub mod Chardev
pub mod ChatServer
pub mod ContactTree
pub mod EchoServer
pub mod EpollServer
pub mod FileCopy
pub mod KbLeds
pub mod PriorityQueue
pub mod SharedPool
pub mod Taxi
