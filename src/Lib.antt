-- ===== src/Lib.antt =====
-- VR-Admin: the native server `vrserver` of an Android VR administration service. It does two
-- things: a thread answers a text protocol on a local socket, with the versions and features of the
-- VR SDKs that two information files describe, and a binder service gives the Java application a
-- few privileged operations of the system. The application offers these to others, keeps account of its
-- clients, and reacts to a sensor and to the devices that are plugged in.
--
-- The parts and their code:
--   * Prelude: names of the libraries and what all parts share. `Exec` (Prelude/Runs) is the result
--     of code that can have undefined behaviour: `undefined` is a read or a write past a buffer, or
--     an overflow of `int`. The integers ℤ and `length` are over the native numbers.
--   * CString: the functions of the C library that the code calls, on lists of bytes. A buffer is
--     the list of all its bytes; `c_str` is its text, and `read_c_str` is `undefined` without a 0.
--   * Heap: objects behind pointers, with `undefined` for a pointer to none; `Owns` says that a list of
--     pointers leads to distinct objects and that no other object lives.
--   * VrSdk: jni/main/VrSDK.h and VrSDK.cpp. `new_sdk`, `add_external_sdk_item` and `get_feature`
--     are the constructor, `addExternalSDKItem` and `getFeature`; `mVFs` is an association list in
--     the order of its keys. What `property_set` is called with is a list of calls.
--   * XmlDatabase: jni/main/XmlDatabase.h and XmlDatabase.cpp. `parser`, `generate_sdk`, `get_sdk`
--     and `get_all_sdk_types` are the methods; a pointer to an SDK is its place in `mData`.
--     XmlDatabase/Refusals tells apart the files that `parser` refuses, adds and merges.
--     XmlDatabase/Objects has the same methods, and the destructor, on the pointers themselves.
--     XmlDatabase/Libxml holds the functions of libxml2 as a parameter. XmlDatabase/Resources has the
--     documents and strings that `parser` takes from it and gives back.
--   * ClientConnector: jni/main/Connector.h, ClientConnector.h and ClientConnector.cpp. `post_select`
--     and `process_message` work on the two buffers of 65 bytes. What they call of the database is
--     the interface `Database`, which ClientConnector/Pointers fills for the pointers to the SDKs.
--     ClientConnector/Protocol is the specification of the protocol, which knows no buffers.
--   * ServerListener: jni/main/ServerListener.h and ServerListener.cpp. `run` is the thread, from the
--     pipe and the listening socket on; `run_round` is one round of its loop for what the system
--     gives in it (`Round`), `add_connector` and `del_connector` are the methods. There the list
--     `mConnectors` is its descriptors; ServerListener/Objects has the same run on the pointers to
--     the connectors and the SDKs and the objects behind them, where `new` gives an address
--     (`HeapRound`) and FD_SET is undefined outside the set; ServerListener/Sdks is the constructor
--     there, and `listener_life` of Objects/Run all of it, with the destructor. ServerListener/Wakeup is
--     `_LoopRefresh`, which no code calls, and the bytes in the pipe that wakes the loop up.
--   * NativeService: jni/main/VRNativeService.h and VRNativeService.cpp, with the result codes of
--     jni/binder/IVRNativeService.h. One function for each operation, over the calls of the system
--     (NativeService/System), which pass its state along.
--   * Binder: jni/binder. `native_proxy` and `event_proxy` are BpVRNativeService and BpVRPostEvent,
--     `native_transact` and `event_transact` the two `onTransact` (Binder/Post is the second pair). NativeInterface and
--     EventInterface are the two abstract classes, as records of operations. Binder/Platform holds the
--     parcels as a parameter, with the law that a parcel is a queue. The order in which the arguments
--     of a call are evaluated is a parameter (`ArgumentOrder`).
--   * Server: VRNativeService as the NativeInterface that jni/main/main_vrserver.cpp publishes.
--     Server/Main has `main`, `ServerListener::self` and `getVRService`, over the service manager as a
--     parameter.
--   * Jni: jni/VRNativeJNI.cpp, the native methods of the Java class VRManager and the receiver of
--     events. `GetStringUTFChars` is a parameter. Jni/Receiver is the same receiver as an object with
--     its references, over the Java runtime of Jni/Runtime; Jni/Registration is the table of methods,
--     with the declarations of src/com/android/VRAdmin/VRManager.java.
--   * Thread: jni/main/Thread.h and Thread.cpp, as steps (`Step`) of the thread that constructs, starts
--     and destroys an object and of the thread that it creates, for any number of objects (`AnyStep`).
--     Thread/Progress has so many objects, each made by a thread of its own, and Thread/Nested one
--     thread that makes two.
--   * AdminService: src/com/android/VRAdmin/VRAdminService.java, over the native methods of Jni. The
--     identities of monitors are numbers; `linked` and `talkers` stand for what the code hands to the
--     framework, recipients of deaths and threads. AdminService/Concurrent has the calls that share state
--     as steps of any number of threads, and AdminService/MinuteLock the wake locks of `onFar`.
--     AdminService/Callbacks has those that are told the
--     progress of DfuUtil, and AdminService/Lifecycle connects the sensor of HmdReceiver to the device.
--   * HmdReceiver: src/com/android/VRAdmin/HMDReceiver.java (`on_receive`), the wake lock of
--     VRAdminApplication.java and the sensor of PSensorUtility.java. `none` is an exception.
--   * DfuUtil: src/com/android/VRAdmin/TalkToDfuUtil.java, on what the reads of its socket give, with
--     the `int` of Java.
--   * Tests: runs at the information files of jni/prebuilt and at small systems.
--
-- How they interact: the constructor of ServerListener has XmlDatabase read the two files, which
-- makes the SDKs; each ClientConnector holds the one database and answers from it; the loop serves
-- all connectors with `post_select` and deletes and closes those that quit. Apart from these, a Java
-- call goes through Jni to the proxy of Binder, in a parcel to the stub, and there to NativeService;
-- events go the other way, from the proxy of IVRPostEvent to Jni.
--
-- Fuel: the loop over the nodes of a document (`visit_nodes`, and `parser` and `new_listener`, which
-- call it) takes fuel, since a chain of siblings comes from libxml2; more than the number of the
-- nodes is enough. `read_lines` takes more than the number of bytes of the stream, and `system_call`
-- gives it that much. All other loops are over lists. The endless loop of `run` is over the rounds
-- that the system gives, for any finite number of them.
--
-- Not modelled: logging and the `debugShow` methods; a `write` of the server that stores a part of
-- a reply, whose result the code does not look at; the mutex of the property operations; the
-- destruction of a thread object before its start.
pub mod Prelude
pub mod CString
pub mod VrSdk
pub mod XmlDatabase
pub mod ClientConnector
pub mod ServerListener
pub mod NativeService
pub mod Binder
pub mod Server
pub mod Jni
pub mod Thread
pub mod Heap
mod Tests
pub mod AdminService
pub mod HmdReceiver
pub mod DfuUtil
