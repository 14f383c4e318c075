-- ===== src/Examples.antt =====
-- Concrete runs of the firmware: tests of the definitions, and each theorem at an input that meets
-- its hypotheses.
mod Rolladen
mod Lichtzone
mod Canix
mod Powerport
mod Usv
mod Heizung
mod Eds
mod Serial
mod Hub
mod Fenster
mod Taster
mod Pumpe
mod Devices
mod Zeit
mod Timeservice
mod Helligkeit
mod Multitaster
mod Schlitz
mod Schalter
mod Addressd
mod Tempsensor
