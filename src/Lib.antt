-- ===== src/Lib.antt =====
-- The Linux driver of the MacroSilicon ms9132 display chips and of the Lenovo Magic Bay HUD. A user
-- program draws into a virtual graphics card; the driver finds what has changed, converts it to YUV
-- and sends it over USB to the chip, which drives the display.
--
-- The parts and how they work together. A display that is plugged in is brought up and attached to
-- a pipeline by drm/msdisp_usb_drv.c (Drm/Usb.antt), which also reads the custom modes of the
-- module's parameter. The kernel sees virtual graphics cards: platform devices in their slots
-- (drm/msdisp_plat_drv.c, Drm/Slots.antt), each with a card (drm/msdisp_drm_drv.c and
-- drm/msdisp_plat_dev.c, Drm/Device.antt), whose pipelines displays take and give back
-- (drm/msdisp_drm_interface.c, Drm.antt). A program asks for memory (drm/msdisp_drm_gem.c,
-- Drm/Gem.antt, with Drm/Gem/Dumb.antt, and Drm/Gem/Fault.antt for a page that the program touches)
-- and makes frame buffers of it (drm/msdisp_drm_fb.c, Drm/Fb.antt). A pipeline is switched on and
-- off and sends an event at each vertical blank (drm/msdisp_drm_modeset.c, Drm/Crtc.antt), and
-- hands each new picture to its display (the same file, Drm/Plane.antt), or dumps it into a file on
-- request (drm/msdisp_common_util.c, Drm/Dump.antt; the request is in drm/msdisp_drm_sysfs.c,
-- Drm/Dump/Request.antt). Its connector says whether a display is there and which modes it has
-- (drm/msdisp_drm_connector.c, Drm/Connector.antt, with the tables of drm/msdisp_drm_mode.c,
-- Drm/Cea.antt). The functions of a display (drm/ms9132_hal.c, Drm/Display.antt) call
-- usb_hal/usb_hal_interface.c: modes and formats and switching on and off (Hal/Modes.antt),
-- pictures (Hal/Update.antt, with the planar copies of Hal/Planes.antt), the pointer
-- (Hal/Pointer.antt), what is asked of the chip at the start (Hal/Setup.antt), the memory of the
-- buffers (Hal/Buffers.antt), and the whole of bringing a display up and taking it down
-- (Hal/Bringup.antt). These calls change the state that they share with the thread, `Hal` of
-- Hal.antt, and queue events. The thread (usb_hal/usb_hal_thread.c, Hal/Machine.antt) takes the
-- events, switches the chip on and off and sends blocks. What a block is made of is in Frame.antt
-- (change detection and rectangles), Frame/Cursor.antt (the pointer in the picture), Frame/Yuv.antt
-- (colours) and Frame/Block.antt (header and trailer). The chip is reached by the control transfers
-- of usb_hal/usb_device.c: Device.antt (the transfer), Device/Xdata.antt and Device/Flash.antt
-- (memory and flash), Device/Video.antt and Device/Chip.antt (commands and queries),
-- Device/Events.antt (switching on and off), Device/Modes.antt (the mode table), Device/Ids.antt
-- (the supported devices, with usb_hal/hal_adaptor.c). Edid.antt and Edid/Blocks.antt have the EDID
-- of the same source file. The modules below these state and prove; Tests.antt has the theorems at
-- concrete inputs. Base.antt has what all share.
--
-- How the code corresponds. A definition has the name of its function without the prefix
-- (`usb_hal_`, `ms9132_`, `msdisp_drm_`); a struct is a record, a return code is an `Outcome` with
-- the errors of Base/Codes.antt. A function that uses the bus is a step on `Usb`, whose `reply`
-- says how each transfer ends: the bus and the chip are arbitrary, and so is which requests for
-- memory the kernel grants. A call of the DRM side gives its code, the state and the events that it
-- has queued. A call of the thread gets as its input what the FIFO gives, the times, and how its
-- bulk transfer would end. Pixel buffers are functions from the index of a 32-bit pixel, byte
-- buffers from the index of a byte. `uint8_t` and `uint16_t` arithmetic is written with its
-- wrap-around.
--
-- Loops are recursion on the number of rounds. The loops over a range of addresses in `read_xdata`
-- and `read_flash` recurse on the number of bytes, which is enough since each round takes at least
-- one. The other loops recurse on their number of rounds or on the list that they go over.
--
-- Not modelled: locks, pauses and log messages; the capacity of the FIFO; the making of the
-- kernel's DRM objects, its memory manager, the flags of a mapping, the table of an exported
-- object, the thread's start and stop, suspending and resuming, and of sysfs all but the request
-- for a dump. What the kernel answers, and the state of its CRTC, are inputs of a call. The frames
-- in the chip's memory are not in the code: the theorems about them speak of any picture that a
-- frame may show.
pub mod Base
pub mod Frame
pub mod Device
pub mod Hal
pub mod Edid
pub mod Drm
pub mod Tests
