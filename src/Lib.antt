-- ===== src/Lib.antt =====
-- Synthizer: the data structures and state machines under its audio graph.
--
-- Synthizer mixes audio in blocks of 256 samples. Generators make audio, sources and effects route it
-- to each other through a router, and a context runs all of this on an audio thread. The program's
-- own threads talk to the audio thread through lock-free queues, and set its state through faders,
-- automation timelines and commands. The modules here model the parts of this that carry state, each
-- as a record with one function per operation, composed as the code composes them.
--
--   Source          include/synthizer/sources.hpp and src/source.cpp: the generators of a source, fillBlock
--                   and lingering; generators and filters are a record (Source.SourceEngine).
--   SpscRing        include/synthizer/spsc_ring.hpp: beginWrite, endWrite, beginRead, endRead. The
--                   pointers that the calls return are indices into the data. A load of the sample
--                   count is an argument, so that either side may see an old count.
--   MpscRing        include/synthizer/mpsc_ring.hpp: write, enqueue and processAll. The indices that
--                   a round of write loads are arguments.
--   Dock            include/synthizer/dock.hpp: a list of nodes from the head on; every call is a step.
--   VectorHelpers   include/synthizer/vector_helpers.hpp: filter, filter_stable, iterate_removing and contains.
--   Router          include/synthizer/router.hpp and src/router.cpp: the sorted vector of routes, with
--                   configureRoute, removeRoute, both removeAllRoutes, routeAudio, finishBlock and the
--                   unregistering of handles. A handle is its address.
--   Fader           include/synthizer/faders.hpp and fade_driver.hpp.
--   Timeline        include/synthizer/generic_timeline.hpp, for any item that has a time.
--   Automation      include/synthizer/property_automation_timeline.hpp and src/event_timeline.cpp, on
--                   the timeline.
--   Memory          include/synthizer/memory.hpp and src/memory.cpp: reference counts of the objects
--                   of the C API, and the registry of their handles.
--   Events          include/synthizer/events.hpp and src/events.cpp: events that refer to objects.
--   BlockDelayLine  include/synthizer/block_delay_line.hpp: the index producers and runLoopPrivSplit. What a
--                   closure does with its reader is a program of reads and writes.
--   Buffer          include/synthizer/buffer.hpp: chunks of samples and the reader of frames.
--   ByteStream      src/byte_stream.cpp: the recording lookahead stream, and reading a whole stream.
--   RawDecoder      src/decoders/raw_decoder.cpp.
--   Pausable        include/synthizer/pausable.hpp and src/pausable.cpp.
--   PriorityQueue   include/synthizer/priority_queue.hpp: push, popUntilPriority and filterAllItems. The
--                   heap algorithms of the C++ library are a record; Sorted has an instance of it.
--   Context         include/synthizer/context.hpp and src/context.cpp: generateAudio, runCommands,
--                   doLinger, enqueueLingerStop, shutdown and the deletion of objects. Context/Block has
--                   the parts of a block in the order of the code. An object is an address in a store of
--                   reference counts; what objects do is a record of functions.
--   AutomationBatch src/automation_batch.cpp: the commands of a batch and its execution. A map from
--                   objects is a function, and the address of an object stands for a pointer to it.
--   BufferGenerator src/generators/buffer.cpp: generateBlock without pitch bend.
--   BufferGeneration  generateBufferData of src/buffer.cpp, from any producer of samples.
--   CApi            src/c_api.cpp: the count of calls in progress, syz_initializeWithConfig,
--                   syz_shutdown, syz_handleIncRef and syz_handleDecRef.
--   Primes          src/prime_helpers.cpp, over any table of primes.
--   Float           floating point as a parameter: a type with the operations that the code uses.
--                   Nothing is assumed of them but what a theorem names as a hypothesis.
--   Base            lists, options, machine tests and their lemmas; Samples has concrete instances.
--
-- Interfaces: the router takes the biquad filter (Router.Biquad) and floats (Float) as parameters,
-- the byte stream takes the stream under it (ByteStream.ByteStream), and the timeline takes
-- pdqsort. The priority queue takes the heap algorithms (PriorityQueue.HeapAlgorithms), the context
-- the virtual functions and components that it calls (Context.Engine), and the automation batch the
-- validation of objects (AutomationBatch.Objects). The automation is a client of the timeline, the
-- router of the fade driver and of filter_stable, and the registry of filter; the context is a
-- client of the priority queue, of iterate_removing, of pausing and of the reference counts, the C
-- API of the context, and the buffer generator of the reader of frames.
--
-- Integers: size_t and the ring indices wrap at 2^64, unsigned int at 2^32, where the code computes
-- with them: block times, reference counts, countdowns, positions and the sizes that guard a
-- buffer. The counters that only walk over what exists in memory do not wrap in the model: the
-- indices and sizes of filter, filter_stable and iterate_removing (the code's are 32 bits, for
-- vectors of fewer than 2^32 elements), the loops of the raw decoder over fewer than 2^32 frames at
-- a time, current_item of a timeline, and the product of index and LANES in the delay line. A
-- result `none` stands for a failed assertion, a read out of bounds, a loop that ran out of rounds,
-- or the copy of readFrames whose 32-bit counter wraps. The assertions of the faders are in the
-- calls Fader.try_set_value, try_drive and try_is_active_at_time; the context, the sources and the
-- buffer generator make these calls, and the router's finishBlock is related to them by a theorem.
-- Loops take a number of rounds first: filter gets one more than the elements, since each round
-- shortens what is left; readFramesI16 one more than the frames to read and the lookahead read one
-- more than the bytes to read, since each round reads something; processAll one more than the
-- cells, since each round empties one; the timeline's tick the number of its items;
-- popUntilPriority one more than the elements of the queue; the buffer generator two more than the
-- frames of a block, since only its first round may read nothing. A deletion may release more
-- objects, so that deletion takes its number of rounds as an argument, and the theorem names one
-- that is enough; so does the generation of a buffer, which lasts as long as its producer gives
-- full chunks, and the loop of syz_shutdown, of which two rounds are enough when no other thread
-- writes the count. The theorems say what these functions return where their conditions hold, so
-- the rounds are enough there.
--
-- Not modelled: the digital signal processing itself (filters, panning, reverberation, resampling,
-- HRTF, pitch bend, the laws of the dither and of the clamp), the audio device, decoders of compressed
-- formats, most of the C API's glue, waiting for another thread to leave a section, the
-- property system, memory ordering of the atomics beyond old loads, and allocation.
--
-- Where deletion is direct, the object is deleted at once; the model keeps it in front of the queue
-- of deletions instead, which the same loop empties. The execution of a batch takes the address of
-- the first point of each of its properties; a property without points, for which that is undefined
-- behaviour, is left out by the predicate AutomationBatch.HasPoints. A buffer at another sample
-- rate than the library's is resampled by a parameter. The sources of a context are a map from
-- their own addresses, and stand in a list in the order in which the map is walked.
pub mod Automation
pub mod AutomationBatch
pub mod Base
pub mod BlockDelayLine
pub mod Buffer
pub mod BufferGeneration
pub mod BufferGenerator
pub mod ByteStream
pub mod CApi
pub mod Context
pub mod Dock
pub mod Events
pub mod Fader
pub mod Float
pub mod Memory
pub mod MpscRing
pub mod Pausable
pub mod Primes
pub mod PriorityQueue
pub mod RawDecoder
pub mod Router
pub mod Samples
pub mod Source
pub mod SpscRing
pub mod Timeline
pub mod VectorHelpers
