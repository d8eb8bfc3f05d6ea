-- ===== src/Lib.antt =====
-- Verification of the kernel drivers of COSC440: two character devices that keep their data in a
-- list of memory pages, for Linux 3 on a 32-bit ARM board, and the exercises that led to them.
--
-- The program. `asgn1/asgn1.c` is a ramdisk: `asgn1_open` counts processes up to a limit that
-- `asgn1_ioctl` sets, and frees everything when it opens to write only; `asgn1_read`,
-- `asgn1_write`, `asgn1_lseek` and `asgn1_mmap` work on the list of pages. `asgn1/mmap_test.c` is a
-- program that uses it. `asgn2/asgn_2.c` reads from a parallel port: the interrupt handler
-- `dummyport_interrupt` puts half bytes together, with `read_half_byte` of `asgn2/gpio.c`, and puts
-- the bytes in a circular buffer; the tasklet `bottom_half` moves them to a queue of pages;
-- `asgn2_read` gives them to a process up to a null terminator, frees the pages it has read and
-- sleeps when there is no data. `Lab1` copies a file to the standard output; `Lab3` has a ramdisk in
-- one block of memory, as a character device and as a misc device, readers of it that sleep
-- until a writer wakes them, and a linked list; `Lab4` has a ramdisk that each open allocates anew,
-- modules that share a
-- mutex or a semaphore, and a parameter in /proc.
--
-- The files. Base and the files under it have the lists, the Boolean tests and the C integers:
-- `size_t` and `unsigned long` are natural numbers below 2^32 with their wrap-around written out,
-- `int` and `loff_t` are integers that wrap at 32 and 64 bits, and `min_int` is the source's
-- `min((int) a, (int) b)`. Kernel has what the drivers take from the kernel, Driver the calls of
-- module init and exit, and Posix what the user programs take from the system.
--   Asgn1/Device     asgn1_dev, free_memory_pages, asgn1_open, asgn1_release
--   Asgn1/Read       asgn1_read           Asgn1/Write    asgn1_write
--   Asgn1/Control    asgn1_lseek, asgn1_ioctl, asgn1_read_procmem, asgn1_mmap
--   Asgn1/Access     processes that open and close the device, as a step relation
--   Asgn1/File       what the device promises: a file of bytes
--   Asgn1/Session    calls of the handlers one after another, and that they refine Asgn1/File
--   Asgn1/Module     asgn1_init_module, asgn1_exit_module
--   Asgn1/Client     my_fread, my_fwrite, read_and_compare of asgn1/mmap_test.c
--   Asgn2/Port       circ_buffer_type, dummyport_interrupt
--   Asgn2/Device     the globals, free_memory_pages, asgn2_open, asgn2_release, asgn2_ioctl,
--                    asgn2_read_procmem
--   Asgn2/Queue      bottom_half          Asgn2/Read     asgn2_read
--   Asgn2/Gpio       read_half_byte, setgpiofunc, gpio_dummy_init, gpio_dummy_exit
--   Asgn2/Module     asgn2_init_module, asgn2_exit_module
--   Asgn2/System     interrupts, the tasklet and a reading process, as a step relation
--   Lab1/MyCat       main of Lab1/my_cat.c
--   Lab3/Seek        Lab3/3.1.3/seek.c: the entry points, my_init, my_exit
--   Lab3/Generic     Lab3/3.2.1/lab_miscdev.h     Lab3/Char      Lab3/3.2.1/lab_char.h
--   Lab3/MyList      Lab3/3.1.1/list.c, on a heap of nodes
--   Lab3/WaitEvent   Lab3/3.2.1/wait_event.c, its processes as a step relation
--   Lab4/PerOpen     Lab4/4.1.2.2/seek.c, on a heap of blocks
--   Lab4/Locks       the modules of Lab4/4.1.1 and Lab4/4.1.2, loaded and unloaded in any order
--   Lab4/Proc        Lab4/4.3/proc.c
-- A device is a record of the fields of its struct, and `mem_list` is the list of its pages, each a
-- list of bytes: a node is linked only once it has a page. A handler is a function from the state
-- and its arguments to its result and the new state. In Asgn1 the device also has the counts of
-- nodes and pages that are allocated, so that a leak shows. The rest of a file is in the folder of
-- its name, in modules named for what they prove; each Tests has runs at concrete inputs.
--
-- Parameters. A value of `Kernel` is the environment of one call: the page size, what each
-- `copy_to_user` and `copy_from_user` leaves uncopied, and each allocation. `IsKernel` is what every
-- kernel guarantees; `Progresses` (a mapped buffer), `Faults` (one that is not) and `Supplies`
-- (memory for every page) are stated where they are needed. The macros of linux/circ_buf.h are
-- `CircMacros`, with their documentation as `IsCirc`. The ioctl macros, `access_ok` and
-- `__get_user` are `IoctlKernel`; what the kernel answers at init is `Answers`, `GpioAnswers`,
-- `SeekAnswers`, `CharAnswers` and `InitAnswers`. A lock of the kernel is `LockKernel`, with what it
-- promises as `IsLock`, its lists are `ListKernel` and `IsList`, and `Format` has `sprintf` and
-- `sscanf`. A value of `Posix.File` is an open file with its `read` and `write`: any function with a
-- state of its own, or, in Asgn1/Client/Device, the handlers of asgn1.c.
--
-- Fuel. The loops around `copy_to_user` and `copy_from_user`, the allocation loops and the loops of
-- the user programs run on fuel, and `none` or `running` means that the loop goes on. Each copy of a
-- mapped buffer moves a byte, so a page's size is enough for the inner loops, and an allocation adds
-- a page of at least one byte, so that the number of missing bytes is enough. A `write` that takes a
-- byte is a round of `my_fwrite`, and a call of `read` one of my_cat. The loops over pages are
-- recursion on the list. `setgpiofunc` takes at most five rounds.
--
-- Not modelled: messages to the log; `.mod.c` files, which the kernel's build writes; `main` of
-- `asgn1/mmap_test.c` and the test programs of the labs; `Lab3/3.1.2/taints.c`, which only
-- prints; `Lab4/4.1.2/lab1_mutex3.c`, whose code is that of `semaphore3.c` and which does not compile.
-- `asgn2_open` and `asgn2_read` are cut in two
-- at their waits, which is where other code runs; a handler runs undisturbed otherwise, except that
-- Asgn1/Access takes apart the test and the increment of `asgn1_open`, and that the readers of
-- Lab3/WaitEvent wait. An access past the end of an array, a page or a ramdisk is the result
-- `overrun`, and an init of asgn1 or asgn2 that uses a null `cdev` is `uses_null`; `cdev_del` gives
-- back what `cdev_alloc` gave. `copy_from_user` puts zero bytes in place of those that it does not copy: Lab3 and Lab4
-- have them, and asgn1_write has them not, since its next copy overwrites them. In Asgn2/System one
-- process at a time has the device.
pub mod Asgn1
pub mod Asgn2
pub mod Base
pub mod Driver
pub mod Kernel
pub mod Lab1
pub mod Lab3
pub mod Lab4
pub mod Posix
