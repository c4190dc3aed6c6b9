-- ===== src/Lib.antt =====
-- CwKeyer: an iambic keyer with a decoder, a remote transmitter and serial, USB and keyboard
-- paddles, in C++ with Qt.
--
-- Paddles (App/usb, App/keyboard, App/serial/N1MMProxy) call a keyer through App/utils/IDitDah.h. The
-- keyer (App/keyer) makes elements of the calls and plays each on its outputs, which are IKeyerCW
-- objects (App/utils/IKeyerCW.h): the decoder (App/cwdecoder), the serial port (App/serial), the
-- remote client (App/remote) and the sound (App/sound). App/gui holds the settings and restarts the
-- parts when one changes; App/configuration keeps the settings in a file.
--
-- - Base: names of the library, Boolean tests, lists, integers, bits and texts.
-- - Timing: calculateDuration of IKeyerCW.h; `none` is the fault of a division by zero. Timing/Sleep is
--   sleepFor of App/utils/Utils.cpp.
-- - Keyer: Keyer.cpp. A field that the source does not initialise is an option. keyerCall is
--   begin_item (up to the end of playDitDah) and end_item (from the mode on), so that paddle calls
--   can come between them; Keyer/Threads has the steps of the thread and of its callers.
-- - Decoder: CwDecoder.cpp and, in Decoder/MorseTable, MorseTable.h. The clock is an argument.
-- - Remote: RemoteClient.cpp. `wire` is what went out on the connection; the answers of the sockets
--   are the record Network. Base64, Frame and Handshake are the WebSocket part, Session is start,
--   stop and moxTimerLoop, Stages and Events let calls of the keyer come between the parts of stop,
--   Socket is RemoteClient_linux.cpp, Winsock RemoteClient_win.cpp.
-- - Sound: Sound.cpp, with CwGenerator.cpp in Sound/Generator and the push timer in Sound/Events. A
--   slot that uses a null pointer or the device of a deleted sink has no result. A sample is its
--   envelope, as a quotient, and its place on the sine.
-- - Paddle: the calls of IDitDah.h as data. Usb: UsbDevice.cpp, with Device.cpp in Usb/Device, the
--   connection in Usb/Connection, the calls of libusb in Usb/Probe and the search for a device in
--   Usb/Detect. Keyboard: KeyboardListener.cpp and its two system files, with Keyboard_linux.cpp in
--   Keyboard/Injection and Keyboard_win.cpp in Keyboard/WindowsKeys; Keyboard/Echo lets the listener of
--   Windows hear the keys that are sent, Keyboard/Hooks has its hook. Serial: SerialComm_linux.cpp, the
--   threads of its runCW in Serial/Threads, SerialComm_win.cpp in Serial/Windows (its queue in
--   Serial/Queue), SerialPorts_linux.cpp and SerialPorts_win.cpp in Serial/Ports and
--   Serial/WindowsPorts, N1MMProxy_linux.cpp and N1MMProxy_win.cpp in Serial/Proxy and Serial/WindowsProxy.
-- - Outputs: IKeyerCW as a record of operations (KeyerCw), with the loops of Keyer.cpp over
--   m_keyerCWList; Outputs/Devices has the four devices of the window, Outputs/Straight what a device
--   with a straight key promises and the way from the DSR line to it, Outputs/Keys the devices that
--   keep the promise.
-- - Configuration: Configuration.cpp, with a file that may be missing, unreadable or unwritable, and
--   a JSON object as an association list.
-- - Gui: GuiConnector.cpp, with the part that loads the file in Gui/Load, the remote settings in
--   Gui/Remotes, the paddles in Gui/Devices and the sound settings in Gui/Sounds. A component is what
--   it was last started with; Gui/Devices and Gui/Sounds have the component itself. Gui/Window is the
--   constructor and initConnector, Gui/Quit quit with the destructors on Linux, Gui/Switches the slots
--   of the serial ports with the ports themselves; Gui/Persist is what the setters leave in the file,
--   Gui/Restart the next loadConfiguration on it.
-- - Chain: the keyer with an output of it. Its elements are the calls of Decoder (Chain/Decoding) and
--   of Remote (Chain/OnAir), with the sleeps of the keyer between them, which may be late, and within
--   a sleep the turns of the timer thread of Remote. Chain/Mox has any elements that are in time,
--   Chain/Release the release behind them. Chain/Paddles is the USB paddle before the keyer, with the
--   turns of the keyer's threads between its reports.
--
-- An `int` is an integer without bounds, but a conversion of a 64-bit count to one wraps around
-- (Decoder); times, tokens and lengths of 64 bits wrap around where the source computes with them
-- (Remote). Doubles are a type D with the conversions from and to an int
-- as parameters. Fuel: sendRaw has the length of the buffer, since each round sends an octet or
-- ends; setWpm and setFarnsWorth have 2, since the inner call makes no other; to_string has the
-- number itself.
--
-- A mutex makes a function a step of its own. Operations that the source runs without one are taken
-- as steps too, so a data race inside one is not modelled: onDit and onDah change the keyer's queue
-- without its mutex (Keyer), and a guard that reads m_running before it takes the mutex is one step
-- with what follows (Remote).
--
-- Gui has a configuration file that can be read and written; where it cannot, the source throws. Its
-- reset_keyer and reset_cw_decoder note the speeds; the division by zero at a speed of 0 is in
-- Keyer.init_keyer and Decoder.start. An assertion of UsbDevice.cpp that fails, or a null handle, gives
-- no result (Usb/Probe, Usb/Detect).
--
-- Not modelled: the values of the samples (floating point), the user interface, the destructors on
-- Windows, logging, the start of the application before GuiConnector, and the libraries: Qt, libusb,
-- X11 and the operating system are parameters or results that are passed in. quit has no other thread
-- at work: neither the listener's nor those of single serial elements, which are detached. Objects that quit has
-- deleted keep their last state: a use of one by a thread that goes on is not a fault here.
mod Base
pub mod Timing
pub mod Keyer
pub mod Decoder
pub mod Remote
pub mod Paddle
pub mod Usb
pub mod Serial
pub mod Gui
pub mod Configuration
pub mod Keyboard
pub mod Chain
pub mod Outputs
pub mod Sound
