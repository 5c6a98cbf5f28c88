-- ===== src/Hal.antt =====
-- The hardware abstraction layer for the Raspberry Pi (libs/HardwareAbstractionLayerImpl/Rpi): the
-- stepper motors behind their controllers on the I2C bus, and the temperature sensors on the SPI bus.
pub mod Bus
pub mod Words
pub mod Tic
pub mod Stepper
pub mod Max31865
pub mod Spi
pub mod I2c
pub mod Pin
pub mod Simulator
